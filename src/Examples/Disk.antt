-- ===== src/Examples/Disk.antt =====
-- A disk for the examples: what is at each path, and where the open file stands.
use remote_file_system.Prelude.{
  ℕ, ◌≤◌, ◌≡◌, ◌≢◌, refl, Bool, true, false, Option, none, some, Option-cases, inl, inr, List, [],
  ◌∷◌, ap, zero, suc, arith, length, length-take, take, drop, if◌then◌else◌,
}
use remote_file_system.Paths.{FilePath, FilePath-discrete, same_path}
use remote_file_system.Server.Errors.{IoError, kind_not_found, kind_unsupported}
use remote_file_system.Server.Attributes.Records.{since_epoch}
use remote_file_system.Server.Disk.{Disk, Metadata, IoResult, done, failed}
use remote_file_system.Server.Disk.Laws.{KeepsBytes, after_write}

pub record Entry : Type 0 where
  pub is_dir : Bool
  pub mode : ℕ
  pub uid : ℕ
  pub gid : ℕ
  pub bytes : List ℕ

pub record Tree : Type 0 where
  pub entries : FilePath → Option Entry
  pub position : ℕ

abbrev pub missing : IoError
missing = record { kind = kind_not_found; message = [] }

abbrev pub refuse : {A : Type 0} → Tree → IoResult A × Tree
refuse w = (failed (record { kind = kind_unsupported; message = [] }), w)

abbrev pub put : FilePath → Option Entry → (FilePath → Option Entry) → FilePath → Option Entry
put path e entries q = if same_path q path then e else entries q

abbrev pub with_entry : FilePath → Option Entry → Tree → Tree
with_entry path e w = record w { entries = put path e w.entries }

abbrev pub bytes_of : Option Entry → List ℕ
bytes_of none = []
bytes_of (some e) = e.bytes

abbrev pub metadata_of : Option Entry → IoResult Metadata
metadata_of none = failed missing
metadata_of (some e) = done (record {
  is_dir = e.is_dir;
  is_file = if e.is_dir then false else true;
  is_symlink = false;
  len = length e.bytes;
  accessed = since_epoch 0 0;
  modified = since_epoch 0 0;
  ctime = record { sec = 0; nsec = 0 };
  mode = e.mode;
  uid = e.uid;
  gid = e.gid;
})

-- A call on what must be there.
abbrev pub on_entry : FilePath → (Entry → Tree) → Tree → IoResult (Unit {0}) × Tree
on_entry path change w = elim (w.entries path) [
  | none ↦ (failed missing, w)
  | some e ↦ (done tt, change e)
]

abbrev pub chosen : Option ℕ → ℕ → ℕ
chosen none n = n
chosen (some m) n = m

abbrev pub new_entry : Bool → Entry
new_entry is_dir = record { is_dir = is_dir; mode = 420; uid = 0; gid = 0; bytes = [] }

abbrev pub open_or_create : Bool → FilePath → Option Entry → Tree → IoResult FilePath × Tree
open_or_create create path (some e) w = (done path, w)
open_or_create true path none w = (done path, with_entry path (some (new_entry false)) w)
open_or_create false path none w = (failed missing, w)

abbrev pub open_existing : FilePath → Option Entry → Tree → IoResult FilePath × Tree
open_existing path (some e) w = (done path, w)
open_existing path none w = (failed missing, w)

abbrev pub tree_disk : Disk
tree_disk = record {
  World = Tree;
  File = FilePath;
  symlink_metadata = λ p w. metadata_of (w.entries p);
  read_dir = λ p w. done [];
  read_link = λ p w. failed missing;
  statvfs = λ p w. failed missing;
  create_dir = λ p w. (done tt, with_entry p (some (new_entry true)) w);
  rename = λ p q w. on_entry p (λ e. with_entry q (some e) (with_entry p none w)) w;
  remove_file = λ p w. on_entry p (λ e. with_entry p none w) w;
  remove_dir = λ p w. on_entry p (λ e. with_entry p none w) w;
  symlink = λ t p. refuse;
  chown = λ p u g w.
      on_entry p
        (λ e. with_entry p (some (record e { uid = chosen u e.uid; gid = chosen g e.gid })) w) w;
  set_permissions = λ p m w. on_entry p (λ e. with_entry p (some (record e { mode = m })) w) w;
  set_file_times = λ p a m w. (done tt, w);
  open_read = λ p w. open_existing p (w.entries p) w;
  open_write = λ create p w. open_or_create create p (w.entries p) w;
  seek = λ f n w. (done n, record w { position = n });
  read = λ f n w. (done (take n (drop w.position (bytes_of (w.entries f)))), w);
  write_all = λ f b w. (
    done tt,
    with_entry f
        (some
          (record (new_entry false) { bytes = after_write (bytes_of (w.entries f)) w.position b }))
        w,
  );
  set_len = λ f n w. (done tt, w);
}

same_refl : (p : FilePath) → same_path p p ≡ true
same_refl p = elim (FilePath-discrete p p) [ yes e ↦ ground (arith, e) | no n ↦ elim (n refl) [ ] ]

same_of_ne : (p q : FilePath) → p ≢ q → same_path p q ≡ false
same_of_ne p q d = elim (FilePath-discrete p q) [
  | yes e ↦ elim (d e) [ ]
  | no n ↦ ground (arith, n)
]

lookup-put : (p : FilePath) (e : Option Entry) (f : FilePath → Option Entry) → put p e f p ≡ e
lookup-put p e f = ground (arith, same_refl p)

lookup-put_other :
    (p q : FilePath) (e : Option Entry) (f : FilePath → Option Entry) → q ≢ p → put p e f q ≡ f q
lookup-put_other p q e f d = ground (arith, same_of_ne q p d)

opens_write :
    (create : Bool) (path : FilePath) (w w' : Tree) (f : FilePath) (here : Option Entry)
    → w.entries path ≡ here
    → open_or_create create path here w ≡ (done f, w')
    → (f ≡ path) × (bytes_of (w'.entries path) ≡ bytes_of (w.entries path))
opens_write create path w w' f (some e) s h = (ground (arith, h), ground (arith, h))
opens_write false path w w' f none s h = ground (arith, h)
opens_write true path w w' f none s h = (ground (arith, h), ground (arith, s, h, same_refl path))

opens_read :
    (path : FilePath) (w w' : Tree) (f : FilePath) (here : Option Entry)
    → open_existing path here w ≡ (done f, w')
    → (f ≡ path) × (bytes_of (w'.entries path) ≡ bytes_of (w.entries path))
opens_read path w w' f (some e) h = (ground (arith, h), ground (arith, h))
opens_read path w w' f none h = ground (arith, h)

take-length-take : {A : Type 0} (n : ℕ) (xs : List A) → take n xs ≡ take (length (take n xs)) (xs)
take-length-take zero xs = refl
take-length-take (suc n) [] = refl
take-length-take (suc n) (x ∷ xs) = ap (◌∷◌ x) (take-length-take n xs)

reads :
    (f : FilePath) (size : ℕ) (w w' : Tree) (b : List ℕ)
    → tree_disk.read f size w ≡ (done b, w')
    → (length b ≤ size) × (b ≡ take (length b) (drop w.position (bytes_of (w.entries f))))
reads f size w w' b h =
    let xs = drop w.position (bytes_of (w.entries f)) in
    (ground (arith, h, length-take size xs), ground (arith, h, take-length-take size xs))

chown_keeps :
    (path : FilePath) (uid gid : Option ℕ) (w w' : Tree)
    → tree_disk.chown path uid gid w ≡ (done tt, w')
    → bytes_of (w'.entries path) ≡ bytes_of (w.entries path)
chown_keeps path uid gid w w' h = elim (Option-cases (w.entries path)) [
  | inl n ↦ ground (arith, n, h)
  | inr (e, s) ↦ ground (arith, s, h, same_refl path)
]

pub tree_disk-KeepsBytes : KeepsBytes tree_disk
tree_disk-KeepsBytes = record {
  bytes = λ p w. bytes_of (w.entries p);
  path_of = λ f. f;
  position = λ f w. w.position;
  open_write = λ create path w w' f h. opens_write create path w w' f (w.entries path) refl h;
  open_read = λ path w w' f h. opens_read path w w' f (w.entries path) h;
  seek = λ f offset n path w w' h. (ground (arith, h), ground (arith, h));
  write_all = λ f b w w' h. ground (arith, h, same_refl f);
  read = reads;
  chown = chown_keeps;
}
