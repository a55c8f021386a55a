-- ===== src/Client/Windows/Files.antt =====
-- The handlers of client/src/fuse/windows.rs that work on one file. What a handler writes into an
-- argument is in its result; a call whose result is an error leaves such arguments as they were.
pub mod Closing
pub mod Memory
use remote_file_system.Prelude.{
  ℕ, ◌+◌, ◌*◌, ◌%◌, ◌^◌, min, max, Bool, true, false, not, ◌&&◌, ◌||◌, Option, none, some, List, [],
  ◌∷◌, length, ltb, take, overwrite, ◌==◌, if◌then◌else◌,
}
use remote_file_system.Paths.{FilePath}
use remote_file_system.Action.{Outcome, ok, err, panicked, pure, raise, ◌>>=◌, ◌>>◌}
use remote_file_system.Client.Attributes.{Attributes, SetAttr, RenameFlags, Timestamp}
use remote_file_system.Client.Action.{attempt}
use remote_file_system.Client.Network.{RemoteStorage}
use remote_file_system.Client.Model.Data
use remote_file_system.Client.Model.Names
use remote_file_system.Client.Windows.{
  Winfsp, FspError, FileInfo, Handle, Handler, nt_status, file_is_a_directory, not_a_reparse_point,
  not_supported, invalid_device_request, has_flag, is_directory, winfsp_path_to_pathbuf,
  file_or_directory, attributes_of_kind, with_attributes, file_info, model, dropping, of_outcome,
}
use remote_file_system.Client.Windows.Times.{filetime_to_unix}

abbrev pub handle_of : FilePath → Handle
handle_of path = record { path = path; delete_on_close = false }

-- `SetAttr { size: Some(size), ..Default::default() }`
abbrev pub only_size : ℕ → SetAttr
only_size size = record {
  mode = none;
  uid = none;
  gid = none;
  size = some size;
  atime = none;
  mtime = none;
  ctime = none;
}

abbrev pub only_times : Option Timestamp → Option Timestamp → Option Timestamp → SetAttr
only_times atime mtime ctime = record {
  mode = none;
  uid = none;
  gid = none;
  size = none;
  atime = atime;
  mtime = mtime;
  ctime = ctime;
}

-- `FileSecurity`
pub record FileSecurity : Type 0 where
  pub reparse : Bool
  pub sz_security_descriptor : ℕ
  pub attributes : ℕ

-- The security descriptor of every file.
abbrev pub descriptor : List ℕ
descriptor =
    0x01 ∷ 0x00 ∷ 0x04 ∷ 0x80 ∷ 0x14 ∷ 0x00 ∷ 0x00 ∷ 0x00 ∷ 0x14 ∷ 0x00 ∷ 0x00 ∷ 0x00 ∷ 0x00 ∷ 0x00
    ∷ 0x00 ∷ 0x00 ∷ 0x00 ∷ 0x00 ∷ 0x00 ∷ 0x00 ∷ []

-- What `get_security` does to the memory from the start of its buffer on: the slice that it writes to
-- has the length of the buffer times the size of the buffer in bytes.
unfoldable pub get_security : Option ℕ → List ℕ → ℕ × List ℕ
get_security none memory = (length descriptor, memory)
get_security (some len) memory =
    (length descriptor, overwrite memory 0 (take (min (length descriptor) (len * len)) descriptor))

abbrev pub is_some : {A : Type 0} → Option A → Bool
is_some none = false
is_some (some a) = true

module _ (win : Winfsp) (env : RemoteStorage) where
  unfoldable pub open_file : List ℕ → ℕ → FileInfo → Handler env (Handle × FileInfo)
  open_file file_name create_options info = do
    path ← of_outcome env (winfsp_path_to_pathbuf win file_name)
    a ← model env (Data.get_attributes env path)
    if is_directory a.kind && has_flag create_options win.constants.file_non_directory_file
        then raise (nt_status file_is_a_directory)
        else pure (
          handle_of path,
          record info {
            file_attributes = file_or_directory win a.kind;
            file_size = a.size;
            allocation_size = a.size;
          },
        )

  -- The error of the flush is written to the log.
  unfoldable pub close : Handle → Handler env (Unit {0})
  close context = dropping env (Data.flush_write_buffer env)

  unfoldable pub get_security_by_name : List ℕ → Handler env FileSecurity
  get_security_by_name file_name = do
    path ← of_outcome env (winfsp_path_to_pathbuf win file_name)
    a ← model env (Data.get_attributes env path)
    pure (record {
      reparse = false;
      sz_security_descriptor = 0;
      attributes = attributes_of_kind win a.kind;
    })

  unfoldable pub get_file_info : Handle → FileInfo → Handler env FileInfo
  get_file_info context info = do
    a ← model env (Data.get_attributes env context.path)
    pure (record (with_attributes win a info) {
      reparse_tag = 0;
      index_number = win.hash context.path;
    })

  -- The path that `cleanup` is given, with what cannot be read left out.
  abbrev pub invalidate_named : Outcome FspError FilePath → Handler env (Unit {0})
  invalidate_named (ok path) s = model env (Names.cache_invalidate env path) s
  invalidate_named (err _) s = (ok tt, s)
  invalidate_named panicked s = (panicked, s)

  unfoldable pub cleanup : Handle → Option (List ℕ) → Handler env (Unit {0})
  cleanup context file_name = do
    dropping env (Data.flush_write_buffer env)
    elim file_name [
      | none ↦ pure tt
      | some name ↦ invalidate_named (winfsp_path_to_pathbuf win name)
    ]
    if context.delete_on_close then dropping env (Names.remove env context.path) else pure tt

  unfoldable pub flush : Handler env (Unit {0})
  flush = model env (Data.flush_write_buffer env)

  unfoldable pub set_security : Handler env (Unit {0})
  set_security = pure tt

  unfoldable pub overwrite_file : Handle → ℕ → FileInfo → Handler env FileInfo
  overwrite_file context allocation info = do
    model env (Names.set_attributes env context.path (only_size 0))
    pure (record info { file_size = 0; allocation_size = allocation })

  unfoldable pub rename : Handle → List ℕ → Bool → Handler env (Unit {0})
  rename context new_file_name replace_if_exists = do
    new_path ← of_outcome env (winfsp_path_to_pathbuf win new_file_name)
    model env (
        Names.rename env context.path new_path
          (record { noreplace = not replace_if_exists; exchange = false; whiteout = false }))

  -- The attributes after `set_attributes`, as `FileInfo::from` gives them.
  abbrev pub changed : FilePath → SetAttr → Handler env FileInfo
  changed path new = do a ← model env (Names.set_attributes env path new); pure (file_info win a)

  -- The times that are given; no call is made where there is none.
  unfoldable pub set_basic_info : Handle → ℕ → ℕ → ℕ → FileInfo → Handler env FileInfo
  set_basic_info context last_access_time last_write_time last_change_time info =
      let atime = filetime_to_unix last_access_time in
      let mtime = filetime_to_unix last_write_time in
      let ctime = filetime_to_unix last_change_time in
      if is_some atime || (is_some mtime || is_some ctime)
      then changed context.path (only_times atime mtime ctime)
      else pure info

  unfoldable pub set_delete : Handle → Bool → Handler env Handle
  set_delete context delete_file = pure (record context { delete_on_close = delete_file })

  unfoldable pub set_file_size : Handle → ℕ → FileInfo → Handler env FileInfo
  set_file_size context new_size info = do
    model env (Names.set_attributes env context.path (only_size new_size))
    pure (record info { file_size = new_size; allocation_size = new_size })

  -- The length that is read and the buffer, which is too short for what is longer.
  unfoldable pub read : Handle → ℕ → List ℕ → Handler env (ℕ × List ℕ)
  read context offset buffer = do
    res ← model env (Data.read_file env context.path offset (length buffer))
    if ltb (length buffer) (length res)
        then (λ s. (panicked, s))
        else pure (length res % 2 ^ 32, overwrite buffer 0 res)

  -- The file is created where its attributes cannot be had.
  abbrev pub create_missing : FilePath → Option Attributes → Handler env (Unit {0})
  create_missing path (some a) = pure tt
  create_missing path none = do model env (Names.create_file env path 0 []); pure tt

  unfoldable pub write : Handle → List ℕ → ℕ → FileInfo → Handler env (ℕ × FileInfo)
  write context buffer offset info = do
    attributes ← model env (attempt (Data.get_attributes env context.path))
    create_missing context.path attributes
    written ← model env (Data.write_file env context.path offset buffer)
    let size = max info.file_size ((offset + written) % 2 ^ 64)
    pure (written % 2 ^ 32, record info { file_size = size; allocation_size = size })

  -- What a file has no more of than its bytes.
  unfoldable pub get_stream_info : Handler env ℕ
  get_stream_info = pure 0

  unfoldable pub get_reparse_point_by_name : Handler env ℕ
  get_reparse_point_by_name = raise (nt_status not_a_reparse_point)

  unfoldable pub get_reparse_point : Handler env ℕ
  get_reparse_point = raise (nt_status not_a_reparse_point)

  unfoldable pub set_reparse_point : Handler env (Unit {0})
  set_reparse_point = raise (nt_status not_a_reparse_point)

  unfoldable pub delete_reparse_point : Handler env (Unit {0})
  delete_reparse_point = raise (nt_status not_a_reparse_point)

  unfoldable pub get_extended_attributes : Handler env ℕ
  get_extended_attributes = pure 0

  unfoldable pub set_extended_attributes : Handler env (Unit {0})
  set_extended_attributes = raise (nt_status not_supported)

  unfoldable pub control : Handler env ℕ
  control = raise (nt_status invalid_device_request)
