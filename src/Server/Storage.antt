-- ===== src/Server/Storage.antt =====
-- The directory that the server serves: server/src/storage.rs, over a parameter for the operating
-- system. A request runs to its end before the next. On Unix the times of a file are always known.
-- Here are the paths, the attributes and who may do what; the operations are in the children.
pub mod Files
pub mod Listing
pub mod Owners
pub mod Access
pub mod Confinement
use remote_file_system.Prelude.{
  ℕ, ◌%◌, ◌^◌, Bool, true, false, not, Option, none, some, List, [], ◌∷◌, ◌==◌, if◌then◌else◌,
}
use remote_file_system.Paths.{
  Text, FilePath, root_dir, cur_dir, parent_dir, normal, text, join, parent, root, same_path,
}
use remote_file_system.Server.Errors.{StorageError, not_found}
use remote_file_system.Server.Attributes.{
  FileType, directory, regular_file, symlink, PermissionType, Permission, Operation, read_operation,
  write_operation, execute_operation, owner_only, permission_of_bits,
}
use remote_file_system.Server.Attributes.Records.{FileAttr, timestamp_of_time}
use remote_file_system.Action.{Outcome, ok, err, and_then}
use remote_file_system.Server.Disk.{Disk, IoResult, done, failed, Metadata}

pub record FileSystem : Type 0 where
  pub real_path : FilePath

pub record RenameFlags : Type 0 where
  pub noreplace : Bool
  pub exchange : Bool
  pub whiteout : Bool

-- The components but `/`, joined again: a `.` that does not lead goes.
abbrev pub without_root : FilePath → FilePath
without_root [] = []
without_root (root_dir ∷ p) = without_root p
without_root (c ∷ p) = c ∷ without_root p

unfoldable pub make_real_path : FileSystem → FilePath → FilePath
make_real_path fs path = join fs.real_path (without_root path)

abbrev pub kind_of : Metadata → FileType
kind_of m =
    if m.is_dir
    then directory
    else if m.is_file
    then regular_file
    else if m.is_symlink
    then symlink
    else regular_file

unfoldable pub attributes_of : Metadata → FileAttr
attributes_of m = record {
  size = m.len;
  blocks = 0;
  atime = timestamp_of_time m.accessed;
  mtime = timestamp_of_time m.modified;
  ctime = m.ctime;
  kind = kind_of m;
  perm = m.mode;
  nlink = if m.is_dir then 2 else 1;
  uid = m.uid;
  gid = m.gid;
  rdev = 0;
  blksize = 0;
}

-- What one class of users may do.
abbrev pub class_allows : PermissionType → Bool → Operation → Bool
class_allows p is_owner read_operation = p.read
class_allows p is_owner write_operation = p.write
class_allows p is_owner execute_operation = p.execute
class_allows p is_owner owner_only = is_owner

-- The classes in their order: the owner, the group, the others.
unfoldable pub permits : FileAttr → ℕ → ℕ → Operation → Bool
permits a user_id group_id operation =
    let permissions = permission_of_bits (a.perm % 2 ^ 16) in
    if user_id == a.uid
    then class_allows permissions.user true operation
    else if group_id == a.gid
    then class_allows permissions.group false operation
    else class_allows permissions.other false operation

module _ (disk : Disk) where
  unfoldable pub get_attributes_by_path : FilePath → disk.World → Outcome StorageError FileAttr
  get_attributes_by_path path w = elim (disk.symlink_metadata path w) [
    | done m ↦ ok (attributes_of m)
    | failed e ↦ err (not_found e.message)
  ]

  -- `fs::symlink_metadata(path).is_ok()`
  unfoldable pub exists : FilePath → disk.World → Bool
  exists path w = elim (disk.symlink_metadata path w) [ done m ↦ true | failed e ↦ false ]

  -- The path itself, or its parent where it does not exist.
  unfoldable pub nearest : FilePath → disk.World → Outcome StorageError FilePath
  nearest path w =
      if exists path w
      then ok path
      else elim (parent path) [ none ↦ err (not_found (text "Path not found: ")) | some p ↦ ok p ]

  module _ (fs : FileSystem) where
    unfoldable pub get_attributes : FilePath → disk.World → Outcome StorageError FileAttr
    get_attributes path w = get_attributes_by_path (make_real_path fs path) w

    unfoldable pub get_permissions : FilePath → disk.World → Outcome StorageError ℕ
    get_permissions path w = and_then (get_attributes path w) (λ a. ok a.perm)

    -- Everyone may access the root of the file system.
    unfoldable pub is_allowed :
        ℕ → ℕ → FilePath → Operation → disk.World → Outcome StorageError Bool
    is_allowed user_id group_id path operation w =
        and_then (nearest (make_real_path fs path) w) (λ p.
          and_then (get_attributes_by_path p w) (λ a.
            if same_path p (make_real_path fs root)
            then ok true
            else ok (permits a user_id group_id operation)))
