-- ===== src/Client/Windows.antt =====
-- The adapter to WinFSP on Windows: client/src/fuse/windows.rs. Each handler of `Fs` is an action on
-- the state of the file system model, as in Client/Fuse. The constants of Windows and the functions
-- of the library are parameters. A path is the sequence of its components; one that begins with
-- two separators, which Windows reads as the name of a host, is read as if it began with one.
pub mod Times
pub mod Reparse
pub mod Files
pub mod Creation
pub mod Entries
use remote_file_system.Prelude.{
  ℕ, ◌+◌, ◌-◌, ◌*◌, ◌^◌, ◌%◌, Bool, true, false, not, Option, none, some, List, [], ◌∷◌, ltb, ◌&&◌,
  ◌||◌, ◌==◌, if◌then◌else◌,
}
use Prim.Native.Nat.{bit_and}
use remote_file_system.Paths.{Text, FilePath, parse, is_absolute}
use remote_file_system.Action.{
  Action, Outcome, ok, err, panicked, pure, raise, continue, and_then, ◌>>=◌,
}
use remote_file_system.Client.Attributes.{FileType, directory, symlink, Attributes}
use remote_file_system.Client.Errors.{FuseError, NetworkError, FsModelError}
use remote_file_system.Client.Action as ModelAction
use remote_file_system.Client.Network.{RemoteStorage}
use remote_file_system.Client.Model.{State}
use remote_file_system.Client.Windows.Times.{unix_to_filetime}

-- The numbers of the statuses that the adapter gives, by their names in the crate `windows`, and
-- those that it writes out.
pub data Status : Type 0 where
  object_name_not_found access_denied invalid_parameter invalid_handle io_device_error : Status
  no_eas_on_file unexpected_io_error host_unreachable bad_network_path : Status
  file_is_a_directory not_a_reparse_point not_supported invalid_device_request : Status

-- `FspError`: a status, or the kind `InvalidInput` of an error of input and output.
pub data FspError : Type 0 where
  nt_status : Status → FspError
  io_invalid_input : FspError

-- `FspError::from`, of a `NetworkError`
unfoldable pub status_of_network : NetworkError → Status
status_of_network (NetworkError.connection_failed _) = host_unreachable
status_of_network (NetworkError.invalid_input _) = invalid_parameter
status_of_network (NetworkError.request _) = io_device_error
status_of_network (NetworkError.server_error (FuseError.not_found _)) = object_name_not_found
status_of_network (NetworkError.server_error _) = unexpected_io_error
status_of_network (NetworkError.unexpected_response _) = bad_network_path
status_of_network NetworkError.invalid_credentials = access_denied
status_of_network (NetworkError.other _) = io_device_error

-- `FspError::from`, of an `FsModelError`
unfoldable pub status_of_model : FsModelError → Status
status_of_model (FsModelError.not_found _) = object_name_not_found
status_of_model (FsModelError.permission_denied _) = access_denied
status_of_model (FsModelError.invalid_input _) = invalid_parameter
status_of_model (FsModelError.conversion_failed _) = invalid_parameter
status_of_model FsModelError.file_handler_error = invalid_handle
status_of_model FsModelError.writer_error = io_device_error
status_of_model (FsModelError.no_data _) = no_eas_on_file
status_of_model (FsModelError.server_error e) = status_of_network e
status_of_model (FsModelError.other _) = unexpected_io_error

-- The constants of Windows.
pub record Win32 : Type 0 where
  pub file_create : ℕ
  pub file_open : ℕ
  pub file_open_if : ℕ
  pub file_directory_file : ℕ
  pub file_non_directory_file : ℕ
  pub file_attribute_directory : ℕ
  pub file_attribute_normal : ℕ
  pub file_attribute_reparse_point : ℕ

-- `FileInfo` of winfsp.
pub record FileInfo : Type 0 where
  pub file_attributes : ℕ
  pub reparse_tag : ℕ
  pub allocation_size : ℕ
  pub file_size : ℕ
  pub creation_time : ℕ
  pub last_access_time : ℕ
  pub last_write_time : ℕ
  pub change_time : ℕ
  pub index_number : ℕ
  pub hard_links : ℕ
  pub ea_size : ℕ

-- What else the adapter takes from libraries: the UTF-8 of UTF-16 where it is valid
-- (`U16CStr::to_string`), what is made of it where it may not be (`to_string_lossy`), the default
-- hash of a path, `FileInfo::default()`, and the error where a name does not fit a `DirInfo`
-- (`set_name`). A
-- `Buffer` is the bytes that the entries of a directory are put into with their cursor: `append`
-- gives nothing when it is full.
pub record Winfsp : Type 1 where
  pub constants : Win32
  pub to_string : List ℕ → Option Text
  pub to_string_lossy : List ℕ → Text
  pub hash : FilePath → ℕ
  pub default_info : FileInfo
  pub name_error : Text → Option FspError
  pub Buffer : Type 0
  pub append : Text × FileInfo → Buffer → Option Buffer
  pub finalize : Buffer → Buffer
  pub cursor : Buffer → ℕ

pub record Handle : Type 0 where
  pub path : FilePath
  pub delete_on_close : Bool

-- `create_options & flag != 0`
abbrev pub has_flag : ℕ → ℕ → Bool
has_flag options flag = not (bit_and options flag == 0)

abbrev pub is_directory : FileType → Bool
is_directory directory = true
is_directory _ = false

-- `s.replace('\\', "/")`, of bytes.
unfoldable pub replace_backslashes : Text → Text
replace_backslashes [] = []
replace_backslashes (c ∷ t) = (if c == 92 then 47 else c) ∷ replace_backslashes t

-- A slash is put before a path that has none; the empty path is the root.
abbrev pub with_slash : Text → Text
with_slash t = if is_absolute t then t else 47 ∷ t

module _ (win : Winfsp) where
  -- The string of the path.
  unfoldable pub path_text : List ℕ → Outcome FspError Text
  path_text name = elim (win.to_string name) [
    | none ↦ err io_invalid_input
    | some s ↦ ok (with_slash (replace_backslashes s))
  ]

  unfoldable pub winfsp_path_to_pathbuf : List ℕ → Outcome FspError FilePath
  winfsp_path_to_pathbuf name = and_then (path_text name) (λ s. ok (parse s))

  -- The attributes of a directory, and those of anything else.
  abbrev pub file_or_directory : FileType → ℕ
  file_or_directory kind =
      if is_directory kind
      then win.constants.file_attribute_directory
      else win.constants.file_attribute_normal

  -- The same where a link counts as a reparse point.
  unfoldable pub attributes_of_kind : FileType → ℕ
  attributes_of_kind directory = win.constants.file_attribute_directory
  attributes_of_kind symlink = win.constants.file_attribute_reparse_point
  attributes_of_kind _ = win.constants.file_attribute_normal

  -- The blocks where there are any, else the size.
  unfoldable pub allocation_size : Attributes → ℕ
  allocation_size a =
      if ltb 0 a.blocks && ltb 0 a.blksize then (a.blocks * a.blksize) % 2 ^ 64 else a.size

  -- The sizes, the times and the links, as `fill_file_info` and `get_file_info` set them.
  abbrev pub with_attributes : Attributes → FileInfo → FileInfo
  with_attributes a info = record info {
    file_attributes = file_or_directory a.kind;
    file_size = a.size;
    allocation_size = allocation_size a;
    creation_time = unix_to_filetime a.ctime;
    last_access_time = unix_to_filetime a.atime;
    last_write_time = unix_to_filetime a.mtime;
    change_time = unix_to_filetime a.ctime;
    hard_links = 1;
    ea_size = 0;
  }

  unfoldable pub fill_file_info : Attributes → FileInfo → FileInfo
  fill_file_info a info = record (with_attributes a info) { index_number = 0 }

  -- `FileInfo::from`
  unfoldable pub file_info : Attributes → FileInfo
  file_info a = record win.default_info {
    file_size = a.size;
    allocation_size = (a.blocks * a.blksize) % 2 ^ 64;
    creation_time = unix_to_filetime a.ctime;
    last_access_time = unix_to_filetime a.atime;
    last_write_time = unix_to_filetime a.mtime;
    change_time = unix_to_filetime a.ctime;
    file_attributes = attributes_of_kind a.kind;
  }

-- The result of a method, with `?` on its error.
abbrev pub of_model : {A : Type 0} → ModelAction.Outcome A → Outcome FspError A
of_model (ModelAction.ok a) = ok a
of_model (ModelAction.err e) = err (nt_status (status_of_model e))
of_model ModelAction.panicked = panicked

module _ (env : RemoteStorage) where
  abbrev pub Handler : Type 0 → Type 0
  Handler A = Action FspError (State env) A

  -- A method of the model with `?`.
  abbrev pub model : {A : Type 0} → ModelAction.Action (State env) A → Handler A
  model m s = let (r, s') = m s in (of_model r, s')

  -- A method of the model whose error is dropped.
  abbrev pub dropping : {A : Type 0} → ModelAction.Action (State env) A → Handler (Unit {0})
  dropping m s =
      let (r, s') = ModelAction.attempt m s in
      elim r [
        | ModelAction.ok _ ↦ (ok tt, s')
        | ModelAction.err _ ↦ (ok tt, s')
        | ModelAction.panicked ↦ (panicked, s')
      ]

  -- What is no action, with `?`.
  abbrev pub of_outcome : {A : Type 0} → Outcome FspError A → Handler A
  of_outcome r s = (r, s)
