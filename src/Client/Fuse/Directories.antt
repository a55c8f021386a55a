-- ===== src/Client/Fuse/Directories.antt =====
-- The handlers that work on directories, and those that are not supported:
-- client/src/fuse/unix.rs.
use remote_file_system.Prelude.{ℕ, List, [], ◌∷◌, add_usize, drop}
use remote_file_system.Paths.{Text, FilePath, text}
use remote_file_system.Action.{pure, ◌>>=◌}
use remote_file_system.Client.Attributes.{
  FileType, directory as directory_kind, regular_file, symlink,
}
use remote_file_system.Client.Attributes.Modes.{Libc}
use remote_file_system.Client.Errors.{unsupported, not_implemented}
use remote_file_system.Client.Network.{
  RemoteStorage, SerializableFsItem, ItemType, file_type, sym_link_type, directory_type,
}
use remote_file_system.Client.Model.Data
use remote_file_system.Client.Model.Names
use remote_file_system.Client.Model.Listing
use remote_file_system.Client.Fuse.{FileAttr, file_attr, refuse, Handler, model}

pub record DirectoryEntry : Type 0 where
  pub offset : ℕ
  pub name : Text
  pub kind : FileType

pub record DirectoryEntryPlus : Type 0 where
  pub kind : FileType
  pub name : Text
  pub offset : ℕ
  pub attr : FileAttr

unfoldable pub kind_of_item : ItemType → FileType
kind_of_item file_type = regular_file
kind_of_item sym_link_type = symlink
kind_of_item directory_type = directory_kind

-- The items from a position on, each with the position after it.
unfoldable pub entries_from : ℕ → List SerializableFsItem → List DirectoryEntry
entries_from offset [] = []
entries_from offset (i ∷ is) =
    record { offset = add_usize offset 1; name = i.name; kind = kind_of_item i.item_type }
    ∷ entries_from (add_usize offset 1) is

unfoldable pub entries_plus_from : Libc → ℕ → List SerializableFsItem → List DirectoryEntryPlus
entries_plus_from libc offset [] = []
entries_plus_from libc offset (i ∷ is) =
    record {
      kind = kind_of_item i.item_type;
      name = i.name;
      offset = add_usize offset 1;
      attr = file_attr libc i.attributes;
    }
    ∷ entries_plus_from libc (add_usize offset 1) is

module _ (libc : Libc) (env : RemoteStorage) where
  unfoldable pub opendir : FilePath → Handler env ℕ
  opendir path = model env (Data.open_file env path)

  unfoldable pub readdir : FilePath → ℕ → Handler env (List DirectoryEntry)
  readdir path offset = do
    items ← model env (Listing.readdir env path)
    pure (entries_from offset (drop offset items))

  unfoldable pub readdirplus : FilePath → ℕ → Handler env (List DirectoryEntryPlus)
  readdirplus path offset = do
    items ← model env (Listing.readdir env path)
    pure (entries_plus_from libc offset (drop offset items))

  unfoldable pub releasedir : ℕ → Handler env (Unit {0})
  releasedir fh = model env (Data.release env fh)

  unfoldable pub fsyncdir : FilePath → Handler env (Unit {0})
  fsyncdir path = model env (Names.cache_invalidate env path)

  unfoldable pub bmap : Handler env (Unit {0})
  bmap = refuse (unsupported (text "bmap"))

  unfoldable pub lseek : Handler env (Unit {0})
  lseek = refuse (unsupported (text "lseek"))

  unfoldable pub link : Handler env FileAttr
  link = refuse (unsupported (text "link"))

  unfoldable pub getlk : Handler env (Unit {0})
  getlk = refuse not_implemented

  unfoldable pub setlk : Handler env (Unit {0})
  setlk = refuse not_implemented

  unfoldable pub interrupt : Handler env (Unit {0})
  interrupt = refuse (unsupported (text "interrupt"))

  unfoldable pub poll : Handler env (Unit {0})
  poll = refuse (unsupported (text "poll"))

  unfoldable pub notify_reply : Handler env (Unit {0})
  notify_reply = refuse (unsupported (text "notify_reply"))
