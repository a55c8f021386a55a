-- ===== src/Client/Fuse.antt =====
-- The adapter to FUSE on Unix: client/src/fuse/unix.rs. Each handler of `Fs` is an action on the
-- state of the file system model that gives its reply or an error number. A reply's times to live,
-- which are zero, and its copies of what was asked are left out.
pub mod Files
pub mod Names
pub mod Directories
pub mod ReadLoop
use remote_file_system.Prelude.{
  ℕ, ◌%◌, ◌^◌, ◌+◌, Bool, true, false, Option, none, some, List, [], ◌∷◌, if◌then◌else◌,
}
use Prim.Native.Nat.{bit_or}
use remote_file_system.Paths.{Text, FilePath, is_utf8, text}
use remote_file_system.Action.{
  Action, Outcome, ok, err, panicked, pure, raise, continue, ◌>>=◌, ◌>>◌,
}
use remote_file_system.Client.Attributes.{FileType, Timestamp, Attributes}
use remote_file_system.Client.Attributes.Modes.{Libc, Flags, mode_of_file_type, file_type_of_mode}
use remote_file_system.Client.Errors.{
  FuseError, NetworkError, FsModelError, unauthorized, not_found, already_exists, not_a_directory,
  is_a_directory, directory_not_empty, permission_denied, operation_not_permitted, storage_full,
  out_of_memory, invalid_input, file_too_large, unsupported, cross_device_link, io_error,
  text_file_busy, resource_busy, try_again, internal_error, not_implemented, invalid_file_handle,
  connection_failed, invalid_credentials, request, server_error, unexpected_response, other,
  conversion_failed, file_handler_error, writer_error, no_data,
}
use remote_file_system.Client.Action as ModelAction
use remote_file_system.Client.Network.{RemoteStorage}
use remote_file_system.Client.Model.{State}
use remote_file_system.Client.Model.Data

-- The error numbers of libc that the adapter uses.
pub data Errno : Type 0 where
  eacces ebadf ebusy econnrefused eagain eexist einval eio eisdir enodata enoent enomem : Errno
  enospc enosys enotdir enotempty eopnotsupp eoverflow eperm erange estale etxtbsy exdev : Errno

-- `Errno::from`, of a `FuseError`
unfoldable pub errno_of_fuse : FuseError → Errno
errno_of_fuse (unauthorized _) = eacces
errno_of_fuse (not_found _) = enoent
errno_of_fuse (already_exists _) = eexist
errno_of_fuse (not_a_directory _) = enotdir
errno_of_fuse (is_a_directory _) = eisdir
errno_of_fuse (directory_not_empty _) = enotempty
errno_of_fuse (permission_denied _) = eacces
errno_of_fuse (operation_not_permitted _) = eperm
errno_of_fuse (storage_full _) = enospc
errno_of_fuse (out_of_memory _) = enomem
errno_of_fuse (invalid_input _) = einval
errno_of_fuse (file_too_large _) = eoverflow
errno_of_fuse (unsupported _) = eopnotsupp
errno_of_fuse (cross_device_link _) = exdev
errno_of_fuse (io_error _) = eio
errno_of_fuse (text_file_busy _) = etxtbsy
errno_of_fuse (resource_busy _) = ebusy
errno_of_fuse (try_again _) = eagain
errno_of_fuse (internal_error _) = eio
errno_of_fuse not_implemented = enosys
errno_of_fuse (invalid_file_handle _) = ebadf

-- `Errno::from`, of a `NetworkError`
unfoldable pub errno_of_network : NetworkError → Errno
errno_of_network (connection_failed _) = econnrefused
errno_of_network (invalid_input _) = einval
errno_of_network (request _) = eio
errno_of_network (server_error e) = errno_of_fuse e
errno_of_network (unexpected_response _) = eio
errno_of_network invalid_credentials = eacces
errno_of_network (other _) = eio

-- `Errno::from`, of an `FsModelError`
unfoldable pub errno_of_model : FsModelError → Errno
errno_of_model (not_found _) = enoent
errno_of_model (permission_denied _) = eacces
errno_of_model (invalid_input _) = einval
errno_of_model (conversion_failed _) = einval
errno_of_model file_handler_error = eio
errno_of_model writer_error = eio
errno_of_model (no_data _) = enodata
errno_of_model (server_error e) = errno_of_network e
errno_of_model (other _) = eio

-- The attributes that FUSE takes: the kind is a part of `perm` too.
pub record FileAttr : Type 0 where
  pub size : ℕ
  pub blocks : ℕ
  pub atime : Timestamp
  pub mtime : Timestamp
  pub ctime : Timestamp
  pub kind : FileType
  pub perm : ℕ
  pub nlink : ℕ
  pub uid : ℕ
  pub gid : ℕ
  pub rdev : ℕ
  pub blksize : ℕ

-- `FileAttr::from`
unfoldable pub file_attr : Libc → Attributes → FileAttr
file_attr libc a = record {
  size = a.size;
  blocks = a.blocks;
  atime = a.atime;
  mtime = a.mtime;
  ctime = a.ctime;
  kind = a.kind;
  perm = bit_or (mode_of_file_type libc a.kind % 2 ^ 16) a.perm;
  nlink = a.nlink;
  uid = a.uid;
  gid = a.gid;
  rdev = a.rdev;
  blksize = a.blksize;
}

-- The result of a method, with `?` on its error.
abbrev pub of_model : {A : Type 0} → ModelAction.Outcome A → Outcome Errno A
of_model (ModelAction.ok a) = ok a
of_model (ModelAction.err e) = err (errno_of_model e)
of_model ModelAction.panicked = panicked

-- `FileType::try_from(mode)?`
abbrev pub file_type : {S : Type 0} → Libc → ℕ → Action Errno S FileType
file_type libc mode = elim (file_type_of_mode libc mode) [
  | none ↦ raise (errno_of_model (conversion_failed (text "Error during convertion.")))
  | some t ↦ pure t
]

-- `Err(FuseError::….into())`
abbrev pub refuse : {S A : Type 0} → FuseError → Action Errno S A
refuse e = raise (errno_of_fuse e)

-- `name.to_str().ok_or_else(…)?`
abbrev pub utf8_name : {S : Type 0} → Text → Action Errno S Text
utf8_name name =
    if is_utf8 name
    then pure name
    else refuse (invalid_input (text "Attributes name is not valid UTF-8"))

module _ (env : RemoteStorage) where
  abbrev pub Handler : Type 0 → Type 0
  Handler A = Action Errno (State env) A

  -- A method of the model with `?`.
  abbrev pub model : {A : Type 0} → ModelAction.Action (State env) A → Handler A
  model m s = let (r, s') = m s in (of_model r, s')

  abbrev pub or_refuse : {A : Type 0} → FuseError → ModelAction.Outcome (Option A) → Outcome Errno A
  or_refuse e (ModelAction.ok (some a)) = ok a
  or_refuse e (ModelAction.ok none) = err (errno_of_fuse e)
  or_refuse e (ModelAction.err _) = err (errno_of_fuse e)
  or_refuse e ModelAction.panicked = panicked

  -- `let Ok(Some(p)) = self.fs.get_path_from_fh(fh).await else { return Err(…) }`
  unfoldable pub path_of_handle : ℕ → FuseError → Handler FilePath
  path_of_handle fh e s = let (r, s') = Data.get_path_from_fh env fh s in (or_refuse e r, s')

  -- The path that is given, or that of the handle.
  unfoldable pub path_or_handle : Option FilePath → ℕ → FuseError → Handler FilePath
  path_or_handle (some p) fh e = pure p
  path_or_handle none fh e = path_of_handle fh e

  -- The same where there may be no handle either.
  unfoldable pub path_or_any_handle : Option FilePath → Option ℕ → Handler FilePath
  path_or_any_handle (some p) fh = pure p
  path_or_any_handle none none = raise estale
  path_or_any_handle none (some fh) = path_of_handle fh (invalid_file_handle fh)
