-- ===== src/Server/Storage/Files.antt =====
-- Creating, renaming, deleting, writing and reading: server/src/storage.rs.
pub mod Exchange
pub mod RoundTrip
use remote_file_system.Prelude.{
  ℕ, ◌&&◌, ◌||◌, not, Bool, true, false, Option, none, some, List, [], ◌∷◌, take, if◌then◌else◌,
}
use remote_file_system.Paths.{Text, FilePath, text, join, normal, with_extension, parse}
use remote_file_system.Server.Errors.{
  StorageError, not_found, already_exists, directory_not_empty, invalid_path, metadata_error, other,
}
use remote_file_system.Server.Attributes.Records.{FileAttr, Stats}
use remote_file_system.Action.{
  Action, Outcome, ok, err, and_then, pure, raise, reading, ◌>>=◌, ◌>>◌,
}
use remote_file_system.Server.Disk.{
  Disk, Metadata, IoResult, done, failed, checked, call, call_other,
}
use remote_file_system.Server.Storage.{
  FileSystem, RenameFlags, make_real_path, exists, get_attributes_by_path,
}

-- An action of the storage.
abbrev pub Step : Disk → Type 0 → Type 0
Step disk A = Action StorageError disk.World A

module _ (disk : Disk) where
  unfoldable pub set_owner : ℕ → ℕ → FilePath → Step disk (Unit {0})
  set_owner user_id group_id path = call_other (disk.chown path (some user_id) (some group_id))

  unfoldable pub rename_exchange : FilePath → FilePath → Step disk (Unit {0})
  rename_exchange a b = do
    let tmp = with_extension (text ".swap_tmp") a
    call (disk.rename a tmp)
    call (disk.rename b a)
    call (disk.rename tmp b)

  -- What `delete` does to what the metadata says is there.
  unfoldable pub delete_entry : FilePath → Metadata → Step disk (Unit {0})
  delete_entry path m =
      if m.is_symlink || m.is_file
      then call (disk.remove_file path)
      else if m.is_dir
      then (reading (λ w. checked (disk.read_dir path w)) >>= λ entries. elim entries [
        | [] ↦ call (disk.remove_dir path)
        | e ∷ es ↦ raise (directory_not_empty (text ""))
      ])
      else raise (not_found (text ""))

  module _ (fs : FileSystem) where
    unfoldable pub make_dir : ℕ → ℕ → FilePath → Text → Step disk (Unit {0})
    make_dir user_id group_id path name w =
        let target = join (make_real_path fs path) (parse name) in
        if exists disk target w
        then raise (already_exists (text "")) w
        else (call (disk.create_dir target) >> set_owner user_id group_id target) w

    unfoldable pub rename : FilePath → FilePath → RenameFlags → Step disk (Unit {0})
    rename old_path new_path flags w =
        let old = make_real_path fs old_path in
        let new = make_real_path fs new_path in
        if flags.exchange
        then rename_exchange old new w
        else if flags.noreplace && exists disk new w
        then raise (already_exists (text "")) w
        else call (disk.rename old new) w

    unfoldable pub delete : FilePath → Step disk (Unit {0})
    delete path = do
      let real = make_real_path fs path
      m ← reading (λ w. checked (disk.symlink_metadata real w))
      delete_entry real m

    unfoldable pub write_file : ℕ → ℕ → FilePath → List ℕ → ℕ → Step disk (Unit {0})
    write_file user_id group_id path bytes offset = do
      let real = make_real_path fs path
      existed ← reading (λ w. ok (exists disk real w))
      f ← call (disk.open_write true real)
      call (disk.seek f offset)
      call (disk.write_all f bytes)
      if existed then pure tt else set_owner user_id group_id real

    unfoldable pub read_file : FilePath → ℕ → ℕ → Step disk (List ℕ)
    read_file path offset size = do
      f ← call (disk.open_read (make_real_path fs path))
      call (disk.seek f offset)
      call (disk.read f size)

    unfoldable pub read_symlink : FilePath → disk.World → Outcome StorageError Text
    read_symlink path w = checked (disk.read_link (make_real_path fs path) w)

    unfoldable pub create_symlink : FilePath → Text → Step disk FileAttr
    create_symlink path target w =
        let real = make_real_path fs path in
        if exists disk real w
        then raise (already_exists (text "")) w
        else (call (disk.symlink target real) >> reading (get_attributes_by_path disk real)) w

    unfoldable pub get_fs_stats : FilePath → disk.World → Outcome StorageError Stats
    get_fs_stats path w =
        let real = make_real_path fs path in
        if exists disk real w
        then elim (disk.statvfs real w) [
          | done stats ↦ ok stats
          | failed e ↦ err (metadata_error e.message)
        ]
        else err (invalid_path (text "Path does not exist"))
