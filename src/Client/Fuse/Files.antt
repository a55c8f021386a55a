-- ===== src/Client/Fuse/Files.antt =====
-- The handlers that work on the bytes and the attributes of a file: client/src/fuse/unix.rs.
use remote_file_system.Prelude.{
  ℕ, suc, zero, ◌-◌, ◌%◌, ◌^◌, Bool, true, false, ◌||◌, Option, none, some, List, [], ◌∷◌, ◌++◌,
  length, ltb, add_usize, ◌==◌, if◌then◌else◌,
}
use remote_file_system.Paths.{Text, FilePath, text, join_name}
use remote_file_system.Action.{panicked, pure, ◌>>=◌, ◌>>◌}
use remote_file_system.Client.Attributes.{SetAttr}
use remote_file_system.Client.Attributes.Modes.{Libc, flags_of_bits}
use remote_file_system.Client.Errors.{FuseError, invalid_input, invalid_file_handle}
use remote_file_system.Client.Network.{RemoteStorage}
use remote_file_system.Client.Model.Data
use remote_file_system.Client.Model.Names
use remote_file_system.Client.Fuse.{
  FileAttr, file_attr, file_type, refuse, Handler, model, path_or_handle, path_or_any_handle,
}

abbrev pub invalid_handle : FuseError
invalid_handle = invalid_input (text "Invalid file handle")

-- `SetAttr { size: Some(0), ..Default::default() }`
abbrev pub size_zero : SetAttr
size_zero = record {
  mode = none;
  uid = none;
  gid = none;
  size = some 0;
  atime = none;
  mtime = none;
  ctime = none;
}

module _ (libc : Libc) (env : RemoteStorage) where
  unfoldable pub getattr : Option FilePath → Option ℕ → Handler env FileAttr
  getattr path fh = do
    p ← path_or_any_handle env path fh
    a ← model env (Data.get_attributes env p)
    pure (file_attr libc a)

  unfoldable pub setattr : Option FilePath → Option ℕ → SetAttr → Handler env FileAttr
  setattr path fh set_attr = do
    p ← path_or_any_handle env path fh
    a ← model env (Names.set_attributes env p set_attr)
    pure (file_attr libc a)

  -- The loop of `read` and `copy_file_range`, on fuel: `none` is fuel that is not enough.
  unfoldable pub read_loop : ℕ → FilePath → ℕ → ℕ → List ℕ → Handler env (Option (List ℕ))
  read_loop zero path offset size bytes = pure none
  read_loop (suc fuel) path offset size bytes = elim (ltb (length bytes) size) [
    | false ↦ pure (some bytes)
    | true ↦
        model env (Data.read_file env path (add_usize offset (length bytes)) (size - length bytes))
        >>= λ new. elim new [
          | [] ↦ pure (some bytes)
          | b ∷ bs ↦ read_loop fuel path offset size (bytes ++ b ∷ bs)
        ]
  ]

  -- A round reads a byte at least, so that `size` rounds and the last test are enough.
  unfoldable pub read_all : FilePath → ℕ → ℕ → Handler env (List ℕ)
  read_all path offset size = do
    r ← read_loop (suc size) path offset size []
    elim r [ none ↦ (λ s. (panicked, s)) | some bytes ↦ pure bytes ]

  unfoldable pub read : Option FilePath → ℕ → ℕ → ℕ → Handler env (List ℕ)
  read path fh offset size = do
    p ← path_or_handle env path fh invalid_handle
    read_all p offset size

  -- The flags of the call are read and not used.
  unfoldable pub write : Option FilePath → ℕ → ℕ → List ℕ → Handler env ℕ
  write path fh offset bytes = do
    p ← path_or_handle env path fh invalid_handle
    written ← model env (Data.write_file env p offset bytes)
    pure (written % 2 ^ 32)

  unfoldable pub flush : Option FilePath → ℕ → Handler env (Unit {0})
  flush path fh = do
    path_or_handle env path fh invalid_handle
    model env (Data.flush_write_buffer env)

  unfoldable pub release : Option FilePath → ℕ → Bool → Handler env (Unit {0})
  release path fh flushing = do
    path_or_handle env path fh (invalid_file_handle fh)
    model env (Data.release env fh)
    if flushing then model env (Data.flush_write_buffer env) else pure tt

  unfoldable pub fsync : Option FilePath → ℕ → Handler env (Unit {0})
  fsync path fh = do
    model env (Data.flush_write_buffer env)
    p ← path_or_handle env path fh (invalid_file_handle fh)
    model env (Names.cache_invalidate env p)

  -- `set_attributes` of size zero, where it is asked for.
  abbrev pub truncate_if : Bool → FilePath → Handler env (Unit {0})
  truncate_if false path = pure tt
  truncate_if true path = do model env (Names.set_attributes env path size_zero); pure tt

  unfoldable pub copy_file_range :
      Option FilePath → ℕ → ℕ → Option FilePath → ℕ → ℕ → ℕ → Handler env ℕ
  copy_file_range from_path fh_in offset_in to_path fh_out offset_out size = do
    p ← path_or_handle env from_path fh_in (invalid_file_handle fh_in)
    q ← path_or_handle env to_path fh_out (invalid_file_handle fh_out)
    bytes ← read_all p offset_in size
    truncate_if (offset_out == 0) q
    model env (Data.write_file env q offset_out bytes)

  unfoldable pub fallocate : Option FilePath → ℕ → ℕ → ℕ → Handler env (Unit {0})
  fallocate path fh offset mode = do
    p ← path_or_handle env path fh (invalid_file_handle fh)
    file_type libc mode
    model env (Names.create_file env p offset [])
    pure tt

  -- The handle, after the checks of the flags.
  unfoldable pub open_file : FilePath → ℕ → Handler env ℕ
  open_file path bits =
      let flags = flags_of_bits libc bits in
      if flags.create || flags.excl || flags.noctt
      then refuse (invalid_input (text "Invalid open flags"))
      else (truncate_if flags.trunc path >> model env (Data.open_file env path))

  -- The attributes and the handle of a new file.
  unfoldable pub create_at : FilePath → Handler env (FileAttr × ℕ)
  create_at path = do
    a ← model env (Names.create_file env path 0 [])
    fh ← model env (Data.open_file env path)
    pure (file_attr libc a, fh)

  unfoldable pub create : FilePath → Text → ℕ → ℕ → Handler env (FileAttr × ℕ)
  create parent name mode bits = do
    file_type libc mode
    if (flags_of_bits libc bits).noctt
        then refuse (invalid_input (text "`O_NOCTTY` flag not supported"))
        else create_at (join_name parent name)
