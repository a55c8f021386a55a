-- ===== src/Client/Windows/Creation.antt =====
-- `create` of client/src/fuse/windows.rs.
pub mod Options
use remote_file_system.Prelude.{ℕ, Bool, true, false, ◌||◌, Option, List, [], if◌then◌else◌}
use remote_file_system.Paths.{FilePath}
use remote_file_system.Action.{pure, raise, ◌>>=◌, ◌>>◌}
use remote_file_system.Client.Network.{RemoteStorage}
use remote_file_system.Client.Model.Data
use remote_file_system.Client.Model.Names
use remote_file_system.Client.Windows.{
  Winfsp, FileInfo, Handle, Handler, io_invalid_input, has_flag, winfsp_path_to_pathbuf, model,
  of_outcome,
}
use remote_file_system.Client.Windows.Reparse.{parse_symlink_target, io_reparse_tag_symlink}
use remote_file_system.Client.Windows.Files.{handle_of}

-- What is written of the new file, which has no bytes.
abbrev pub empty_info : ℕ → FileInfo → FileInfo
empty_info attributes info = record info {
  file_attributes = attributes;
  file_size = 0;
  allocation_size = 0;
}

module _ (win : Winfsp) (env : RemoteStorage) where
  unfoldable pub create_link :
      FilePath → Option (List ℕ) → FileInfo → Handler env (Handle × FileInfo)
  create_link path extra_buffer info = do
    target ← of_outcome env (parse_symlink_target win extra_buffer)
    model env (Names.create_symlink env path target)
    pure (
      handle_of path,
      record (empty_info win.constants.file_attribute_reparse_point info) {
        reparse_tag = io_reparse_tag_symlink;
      },
    )

  -- What is asked of the server: to make it, only to look at it, or nothing.
  abbrev pub make_or_look : Bool → Bool → FilePath → Handler env (Unit {0}) → Handler env (Unit {0})
  make_or_look true looks path make = make
  make_or_look false true path make = do model env (Data.get_attributes env path); pure tt
  make_or_look false false path make = pure tt

  -- The options of the call, each tested as a flag.
  abbrev pub makes : ℕ → Bool
  makes options =
      has_flag options win.constants.file_create || has_flag options win.constants.file_open_if

  abbrev pub looks : ℕ → Bool
  looks options = has_flag options win.constants.file_open

  unfoldable pub create_directory : FilePath → ℕ → FileInfo → Handler env (Handle × FileInfo)
  create_directory path options info = do
    make_or_look (makes options) (looks options) path (do model env (Names.mkdir env path); pure tt)
    pure (handle_of path, empty_info win.constants.file_attribute_directory info)

  unfoldable pub create_regular : FilePath → ℕ → FileInfo → Handler env (Handle × FileInfo)
  create_regular path options info = do
    make_or_look (makes options) (looks options) path
        (do model env (Names.create_file env path 0 []); pure tt)
    pure (handle_of path, empty_info win.constants.file_attribute_normal info)

  unfoldable pub create :
      List ℕ → ℕ → Option (List ℕ) → Bool → FileInfo → Handler env (Handle × FileInfo)
  create file_name options extra_buffer is_reparse_point info = do
    path ← of_outcome env (winfsp_path_to_pathbuf win file_name)
    if is_reparse_point
        then create_link path extra_buffer info
        else if has_flag options win.constants.file_directory_file
        then create_directory path options info
        else if has_flag options win.constants.file_non_directory_file
        then create_regular path options info
        else raise io_invalid_input
