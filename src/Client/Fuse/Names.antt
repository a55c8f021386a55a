-- ===== src/Client/Fuse/Names.antt =====
-- The handlers that work on names and extended attributes: client/src/fuse/unix.rs.
use remote_file_system.Prelude.{
  ℕ, ◌%◌, ◌^◌, ◌/◌, List, [], ◌∷◌, ◌++◌, length, ltb, ◌==◌, if◌then◌else◌,
}
use remote_file_system.Paths.{Text, FilePath, text, join_name, is_utf8}
use remote_file_system.Action.{Action, pure, raise, ◌>>=◌, ◌>>◌}
use remote_file_system.Client.Attributes.{Stats, RenameFlags}
use remote_file_system.Client.Attributes.Modes.{Libc}
use remote_file_system.Client.Errors.{invalid_input, unsupported}
use remote_file_system.Client.Network.{RemoteStorage}
use remote_file_system.Client.Model.Data
use remote_file_system.Client.Model.Names as Model
use remote_file_system.Client.Fuse.{
  Errno, erange, FileAttr, file_attr, file_type, refuse, utf8_name, Handler, model,
}

-- `ReplyXAttr`
pub data XattrReply : Type 0 where
  size_reply : ℕ → XattrReply
  data_reply : List ℕ → XattrReply

-- The reply to a caller with room for so many bytes, who asks for the size with none.
unfoldable pub reply_sized : {S : Type 0} → ℕ → List ℕ → Action Errno S XattrReply
reply_sized size bytes =
    if size == 0
    then pure (size_reply (length bytes % 2 ^ 32))
    else if ltb size (length bytes % 2 ^ 32)
    then raise erange
    else pure (data_reply bytes)

-- Each name, and a zero after it.
unfoldable pub name_list : List Text → List ℕ
name_list [] = []
name_list (n ∷ ns) = n ++ 0 ∷ name_list ns

-- `RenameFlags::from_bits_truncate`
unfoldable pub rename_flags_of_bits : ℕ → RenameFlags
rename_flags_of_bits n = record {
  noreplace = n % 2 == 1;
  exchange = n / 2 % 2 == 1;
  whiteout = n / 4 % 2 == 1;
}

module _ (libc : Libc) (env : RemoteStorage) where
  unfoldable pub lookup : FilePath → Text → Handler env FileAttr
  lookup parent name = do
    a ← model env (Data.get_attributes env (join_name parent name))
    pure (file_attr libc a)

  unfoldable pub forget : FilePath → Handler env (Unit {0})
  forget path = model env (Model.cache_invalidate env path)

  unfoldable pub batch_forget : List FilePath → Handler env (Unit {0})
  batch_forget [] = pure tt
  batch_forget (p ∷ ps) = do model env (Model.cache_invalidate env p); batch_forget ps

  -- What a handler of extended attributes does where these are in use.
  abbrev pub with_xattributes : {A : Type 0} → Text → Handler env A → Handler env A
  with_xattributes name handler s =
      if s.xattributes_enabled then handler s else refuse (unsupported name) s

  unfoldable pub getxattr : FilePath → Text → ℕ → Handler env XattrReply
  getxattr path name size = with_xattributes (text "getxattr") (
      utf8_name name >>= λ n.
      model env (Model.get_x_attributes env path n) >>= λ bytes. reply_sized size bytes)

  unfoldable pub setxattr : FilePath → Text → List ℕ → Handler env (Unit {0})
  setxattr path name value =
      with_xattributes (text "setxattr")
        (utf8_name name >>= λ n. model env (Model.set_x_attributes env path n value))

  unfoldable pub listxattr : FilePath → ℕ → Handler env XattrReply
  listxattr path size =
      with_xattributes (text "listxattr") (
        model env (Model.list_x_attribute env path) >>= λ names. reply_sized size (name_list names))

  unfoldable pub removexattr : FilePath → Text → Handler env (Unit {0})
  removexattr path name =
      with_xattributes (text "removexattr")
        (utf8_name name >>= λ n. model env (Model.remove_x_attributes env path n))

  unfoldable pub statfs : FilePath → Handler env Stats
  statfs path = model env (Model.get_fs_stats env path)

  unfoldable pub access : FilePath → ℕ → Handler env (Unit {0})
  access path mask = model env (Model.get_permissions env path mask)

  unfoldable pub mknod : FilePath → Text → ℕ → Handler env FileAttr
  mknod parent name mode = do
    file_type libc mode
    a ← model env (Model.create_file env (join_name parent name) 0 [])
    pure (file_attr libc a)

  unfoldable pub mkdir : FilePath → Text → Handler env FileAttr
  mkdir parent name = do
    a ← model env (Model.mkdir env (join_name parent name))
    pure (file_attr libc a)

  unfoldable pub rmdir : FilePath → Text → Handler env (Unit {0})
  rmdir parent name = model env (Model.remove env (join_name parent name))

  unfoldable pub unlink : FilePath → Text → Handler env (Unit {0})
  unlink parent name = model env (Model.remove env (join_name parent name))

  unfoldable pub rename : FilePath → Text → FilePath → Text → Handler env (Unit {0})
  rename origin_parent origin_name parent name = model env (
      Model.rename env (join_name origin_parent origin_name) (join_name parent name)
        (rename_flags_of_bits 0))

  unfoldable pub rename2 : FilePath → Text → FilePath → Text → ℕ → Handler env (Unit {0})
  rename2 origin_parent origin_name parent name flags = model env (
      Model.rename env (join_name origin_parent origin_name) (join_name parent name)
        (rename_flags_of_bits flags))

  unfoldable pub readlink : FilePath → Handler env Text
  readlink path = model env (Model.read_symlink env path)

  unfoldable pub symlink : FilePath → Text → Text → Handler env FileAttr
  symlink parent name link_path =
      if is_utf8 link_path
      then (model env (Model.create_symlink env (join_name parent name) link_path) >>= λ a.
          pure (file_attr libc a))
      else refuse (invalid_input (text "Invalid symlink target"))
