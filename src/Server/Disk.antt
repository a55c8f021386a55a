-- ===== src/Server/Disk.antt =====
-- What the server asks of its operating system (`std::fs`, `nix` and `filetime`, which
-- server/src/storage.rs calls): a record of functions over an unknown state of the disk.
pub mod Laws
use remote_file_system.Prelude.{ℕ, Bool, Option, List, ◌≡◌, refl, ap, ◌⊎◌, inl, inr, arith}
use remote_file_system.Paths.{Text, FilePath}
use remote_file_system.Server.Errors.{IoError, StorageError, storage_of_io, other}
use remote_file_system.Server.Attributes.Records.{SystemTime, Timestamp, Stats}
use remote_file_system.Action.{Action, Outcome, ok, err}

-- `std::io::Result`
pub data IoResult (A : Type 0) : Type 0 where
  done : A → IoResult A
  failed : IoError → IoResult A

-- `std::fs::Metadata`, as far as it is read.
pub record Metadata : Type 0 where
  pub is_dir : Bool
  pub is_file : Bool
  pub is_symlink : Bool
  pub len : ℕ
  pub accessed : SystemTime
  pub modified : SystemTime
  pub ctime : Timestamp
  pub mode : ℕ
  pub uid : ℕ
  pub gid : ℕ

-- A directory is read as its entries' names, each of which may fail on its own.
pub record Disk : Type 1 where
  pub World : Type 0
  pub File : Type 0
  pub symlink_metadata : FilePath → World → IoResult Metadata
  pub read_dir : FilePath → World → IoResult (List (IoResult Text))
  pub read_link : FilePath → World → IoResult Text
  pub statvfs : FilePath → World → IoResult Stats
  pub create_dir : FilePath → World → IoResult (Unit {0}) × World
  pub rename : FilePath → FilePath → World → IoResult (Unit {0}) × World
  pub remove_file : FilePath → World → IoResult (Unit {0}) × World
  pub remove_dir : FilePath → World → IoResult (Unit {0}) × World
  pub symlink : Text → FilePath → World → IoResult (Unit {0}) × World
  pub chown : FilePath → Option ℕ → Option ℕ → World → IoResult (Unit {0}) × World
  pub set_permissions : FilePath → ℕ → World → IoResult (Unit {0}) × World
  pub set_file_times : FilePath → SystemTime → SystemTime → World → IoResult (Unit {0}) × World
  pub open_read : FilePath → World → IoResult File × World
  pub open_write : Bool → FilePath → World → IoResult File × World
  pub seek : File → ℕ → World → IoResult ℕ × World
  pub read : File → ℕ → World → IoResult (List ℕ) × World
  pub write_all : File → List ℕ → World → IoResult (Unit {0}) × World
  pub set_len : File → ℕ → World → IoResult (Unit {0}) × World

-- The error of a call, as `StorageError::from` turns it.
abbrev pub checked : {A : Type 0} → IoResult A → Outcome StorageError A
checked (done a) = ok a
checked (failed e) = err (storage_of_io e)

-- A call with `?`.
abbrev pub call : {W A : Type 0} → (W → IoResult A × W) → Action StorageError W A
call f w = let (r, w') = f w in (checked r, w')

-- `StorageError::Other` of a call's error.
abbrev pub checked_other : {A : Type 0} → IoResult A → Outcome StorageError A
checked_other (done a) = ok a
checked_other (failed e) = err (other e.message)

abbrev pub call_other : {W A : Type 0} → (W → IoResult A × W) → Action StorageError W A
call_other f w = let (r, w') = f w in (checked_other r, w')

-- A call has given something or failed.
pub io-cases :
    {A : Type 0} (r : IoResult A) → ((a : A) × (r ≡ done a)) ⊎ ((e : IoError) × (r ≡ failed e))
io-cases (done a) = inl (a, refl)
io-cases (failed e) = inr (e, refl)

pub call-ok :
    {W A : Type 0} (f : W → IoResult A × W) (w w' : W) (a : A)
    → call f w ≡ (ok a, w')
    → f w ≡ (done a, w')
call-ok f w w' a h = elim (io-cases (f w).0) [
  | inl (b, e) ↦ ground (arith, e, h)
  | inr (x, e) ↦ ground (arith, e, h)
]

pub call_other-ok :
    {W A : Type 0} (f : W → IoResult A × W) (w w' : W) (a : A)
    → call_other f w ≡ (ok a, w')
    → f w ≡ (done a, w')
call_other-ok f w w' a h = elim (io-cases (f w).0) [
  | inl (b, e) ↦ ground (arith, e, h)
  | inr (x, e) ↦ ground (arith, e, h)
]
