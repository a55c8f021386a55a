-- ===== src/Server/Disk/Laws.antt =====
-- What the documentation of `std::fs` says of the calls of server/src/storage.rs, as far as the
-- theorems on the storage rely on it.
use remote_file_system.Prelude.{
  ℕ, ◌+◌, ◌-◌, ◌≤◌, ◌≡◌, ◌≢◌, Bool, Option, none, some, List, [], ◌∷◌, ◌++◌, refl, is_empty, false,
  arith, length, take, drop, replicate,
}
use remote_file_system.Paths.{FilePath}
use remote_file_system.Server.Disk.{Disk, done}

-- The bytes of a file after a write at a position, past the end of which it is filled with zeros.
abbrev pub overwrite : List ℕ → ℕ → List ℕ → List ℕ
overwrite old position bytes =
    take position (old ++ replicate (position - length old) 0)
    ++ (bytes ++ drop (position + length bytes) old)

-- The bytes after a write: one of no bytes writes nothing, wherever it is.
abbrev pub after_write : List ℕ → ℕ → List ℕ → List ℕ
after_write old position [] = old
after_write old position (c ∷ bytes) = overwrite old position (c ∷ bytes)

pub after_write-overwrite :
    (old : List ℕ) (position : ℕ) (bytes : List ℕ)
    → is_empty bytes ≡ false
    → after_write old position bytes ≡ overwrite old position bytes
after_write-overwrite old position [] h = ground (arith, h)
after_write-overwrite old position (c ∷ bytes) h = refl

-- None of the places is the one.
abbrev pub Avoids : {P : Type 0} → List P → P → Type 0
Avoids [] p = Unit {0}
Avoids (q ∷ qs) p = (q ≢ p) × Avoids qs p

-- A renaming. A place is a name in a directory, whichever path leads to it: `walk` gives the places
-- that a path passes through, of directories and of links that are followed, and the one that it
-- ends at. What is at a place is a file or a directory itself, so that two links of one file hold the
-- same. A renaming that succeeds moves what is at the last place of the old path to that of the new
-- one, where they do not hold the same, and leaves every other place; and a path that passes through
-- neither still leads where it led.
pub record Renames (disk : Disk) : Type 1 where
  pub Place : Type 0
  pub Entry : Type 0
  pub walk : FilePath → disk.World → Option (List Place × Place)
  pub held : Place → disk.World → Option Entry
  pub found :
      (old new : FilePath) (via : List Place) (p : Place) (w w' : disk.World)
      → disk.rename old new w ≡ (done tt, w')
      → walk old w ≡ some (via, p)
      → held p w ≢ none
  pub moves :
      (old new : FilePath) (via via' : List Place) (p q : Place) (w w' : disk.World)
      → disk.rename old new w ≡ (done tt, w')
      → walk old w ≡ some (via, p)
      → walk new w ≡ some (via', q)
      → held p w ≢ held q w
      → (held q w' ≡ held p w) × (held p w' ≡ none)
  pub keeps :
      (old new : FilePath) (via via' : List Place) (p q other : Place) (w w' : disk.World)
      → disk.rename old new w ≡ (done tt, w')
      → walk old w ≡ some (via, p)
      → walk new w ≡ some (via', q)
      → other ≢ p
      → other ≢ q
      → held other w' ≡ held other w
  pub leads :
      (old new path : FilePath) (via via' via'' : List Place) (p q r : Place) (w w' : disk.World)
      → disk.rename old new w ≡ (done tt, w')
      → walk old w ≡ some (via, p)
      → walk new w ≡ some (via', q)
      → walk path w ≡ some (via'', r)
      → Avoids via'' p
      → Avoids via'' q
      → walk path w' ≡ some (via'', r)

-- The bytes of each file, and the file and the position of what is open. A read may give fewer bytes
-- than it is asked for.
pub record KeepsBytes (disk : Disk) : Type 0 where
  pub bytes : FilePath → disk.World → List ℕ
  pub path_of : disk.File → FilePath
  pub position : disk.File → disk.World → ℕ
  pub open_write :
      (create : Bool) (path : FilePath) (w w' : disk.World) (f : disk.File)
      → disk.open_write create path w ≡ (done f, w')
      → (path_of f ≡ path) × (bytes path w' ≡ bytes path w)
  pub open_read :
      (path : FilePath) (w w' : disk.World) (f : disk.File)
      → disk.open_read path w ≡ (done f, w')
      → (path_of f ≡ path) × (bytes path w' ≡ bytes path w)
  pub seek :
      (f : disk.File) (offset n : ℕ) (path : FilePath) (w w' : disk.World)
      → disk.seek f offset w ≡ (done n, w')
      → (position f w' ≡ offset) × (bytes path w' ≡ bytes path w)
  pub write_all :
      (f : disk.File) (data_bytes : List ℕ) (w w' : disk.World)
      → disk.write_all f data_bytes w ≡ (done tt, w')
      → bytes (path_of f) w' ≡ after_write (bytes (path_of f) w) (position f w) data_bytes
  pub read :
      (f : disk.File) (size : ℕ) (w w' : disk.World) (b : List ℕ)
      → disk.read f size w ≡ (done b, w')
      → (length b ≤ size) × (b ≡ take (length b) (drop (position f w) (bytes (path_of f) w)))
  pub chown :
      (path : FilePath) (uid gid : Option ℕ) (w w' : disk.World)
      → disk.chown path uid gid w ≡ (done tt, w')
      → bytes path w' ≡ bytes path w
