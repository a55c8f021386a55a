-- ===== src/Examples/Server.antt =====
-- A server for the examples: it keeps what it is sent, or refuses every request.
use remote_file_system.Prelude.{ℕ, Bool, true, false, List, [], ◌∷◌, ◌++◌, ◌≡◌, refl, arith}
use remote_file_system.Paths.{FilePath}
use remote_file_system.Client.Attributes.{Attributes, Timestamp, regular_file}
use remote_file_system.Client.Errors.{invalid_credentials}
use remote_file_system.Client.Network.{RemoteStorage, Reply, done, failed}
use remote_file_system.Client.Model.Uploads.{Cell, cells}
use remote_file_system.Client.Model.Session.{KeepsWrites}

-- Whether the server accepts, and what it was sent.
abbrev pub Server : Type 0
Server = Bool × List Cell

abbrev pub epoch : Timestamp
epoch = record { sec = 0; nsec = 0 }

abbrev pub plain : Attributes
plain = record {
  size = 4;
  blocks = 1;
  atime = epoch;
  mtime = epoch;
  ctime = epoch;
  kind = regular_file;
  perm = 420;
  nlink = 1;
  uid = 0;
  gid = 0;
  rdev = 0;
  blksize = 512;
}

abbrev pub refuse : {A : Type 0} → Server → Reply A × Server
refuse w = (failed invalid_credentials, w)

abbrev pub accept_write : FilePath → ℕ → List ℕ → Server → Reply Attributes × Server
accept_write path offset bytes (true, log) =
    (done plain, (true, log ++ cells (path, offset, bytes)))
accept_write path offset bytes (false, log) = (failed invalid_credentials, (false, log))

abbrev pub logging : RemoteStorage
logging = record {
  World = Server;
  now = λ w. 0;
  get_attributes = λ p. refuse;
  set_attributes = λ p a. refuse;
  get_x_attributes = λ p n. refuse;
  set_x_attributes = λ p n b. refuse;
  list_x_attributes = λ p. refuse;
  remove_x_attributes = λ p n. refuse;
  get_permissions = λ p m. refuse;
  get_stats = λ p. refuse;
  list_path = λ p. refuse;
  read_file = λ p o n w. (done (1 ∷ 2 ∷ 3 ∷ []), w);
  write_file = accept_write;
  mkdir = λ p. refuse;
  rename = λ p q f. refuse;
  remove = λ p. refuse;
  create_symlink = λ p t. refuse;
  read_symlink = λ p. refuse;
}

keeps :
    (path : FilePath) (offset : ℕ) (bytes : List ℕ) (w : Server) (a : Attributes)
    → (accept_write path offset bytes w).0 ≡ done a
    → (accept_write path offset bytes w).1.1 ≡ w.1 ++ cells (path, offset, bytes)
keeps path offset bytes (true, log) a h = refl
keeps path offset bytes (false, log) a h = ground arith

pub logging-KeepsWrites : KeepsWrites logging
logging-KeepsWrites = record { log = λ w. w.1; appends = keeps }
