-- ===== src/Server/Storage/Owners.antt =====
-- `set_attributes` of server/src/storage.rs, part by part.
pub mod Denials
use remote_file_system.Prelude.{
  ℕ, ◌&&◌, ◌||◌, not, Bool, true, false, Option, none, some, ◌==◌, if◌then◌else◌,
}
use remote_file_system.Paths.{Text, FilePath}
use remote_file_system.Server.Errors.{StorageError, permission_denied}
use remote_file_system.Server.Attributes.{Operation, write_operation, owner_only}
use remote_file_system.Server.Attributes.Records.{
  FileAttr, SetAttr, SystemTime, Timestamp, time_of_timestamp,
}
use remote_file_system.Action.{
  Action, Outcome, ok, err, panicked, and_then, pure, raise, reading, continue, ◌>>=◌, ◌>>◌,
}
use remote_file_system.Server.Disk.{Disk, checked, call, call_other}
use remote_file_system.Server.Storage.{
  FileSystem, make_real_path, get_attributes_by_path, is_allowed,
}
use remote_file_system.Server.Storage.Files.{Step}

-- Whether an owner or a group is to change, and may: `none` is no change.
unfoldable pub resolve : ℕ → Option ℕ → ℕ → Bool → Outcome StorageError (Option ℕ)
resolve user_id none current is_member = ok none
resolve user_id (some r) current is_member =
    if r == current
    then ok none
    else if user_id == 0 || is_member
    then ok (some r)
    else err permission_denied

abbrev pub is_some : {A : Type 0} → Option A → Bool
is_some none = false
is_some (some a) = true

-- `new_attributes.gid == Some(group_id)`
abbrev pub is_just : Option ℕ → ℕ → Bool
is_just none n = false
is_just (some m) n = m == n

-- The time to set: the one that is asked for, or the one there is.
unfoldable pub chosen_time : Option Timestamp → SystemTime → Outcome StorageError SystemTime
chosen_time none current = ok current
chosen_time (some t) current = elim (time_of_timestamp t) [ none ↦ panicked | some s ↦ ok s ]

module _ (disk : Disk) (fs : FileSystem) (path : FilePath) (user_id group_id : ℕ) where
  -- A step for those only whom `is_allowed` allows the operation.
  abbrev pub if_allowed : {A : Type 0} → Operation → Step disk A → Step disk A
  if_allowed operation step = do
    allowed ← reading (is_allowed disk fs user_id group_id path operation)
    if allowed then step else raise permission_denied

  unfoldable pub set_mode : Option ℕ → Step disk (Unit {0})
  set_mode none = pure tt
  set_mode (some mode) =
      if_allowed owner_only (call (disk.set_permissions (make_real_path fs path) mode))

  abbrev pub change_owner : Option ℕ → Option ℕ → Step disk (Unit {0})
  change_owner uid gid =
      if is_some uid || is_some gid
      then call_other (disk.chown (make_real_path fs path) uid gid)
      else pure tt

  unfoldable pub resolve_owner : Option ℕ → Option ℕ → Step disk (Unit {0})
  resolve_owner uid gid = do
    metadata ← reading (get_attributes_by_path disk (make_real_path fs path))
    target_uid ← reading (λ w. resolve user_id uid metadata.uid false)
    target_gid ← reading (λ w. resolve user_id gid metadata.gid (is_just gid group_id))
    change_owner target_uid target_gid

  unfoldable pub set_ownership : Option ℕ → Option ℕ → Step disk (Unit {0})
  set_ownership uid gid =
      if is_some uid || is_some gid then if_allowed owner_only (resolve_owner uid gid) else pure tt

  abbrev pub truncate : ℕ → Step disk (Unit {0})
  truncate size = do
    f ← call (disk.open_write false (make_real_path fs path))
    call (disk.set_len f size)

  unfoldable pub set_size : Option ℕ → Step disk (Unit {0})
  set_size none = pure tt
  set_size (some size) = if_allowed write_operation (truncate size)

  unfoldable pub check_mtime : Option Timestamp → Step disk (Unit {0})
  check_mtime none = pure tt
  check_mtime (some t) = if_allowed write_operation (pure tt)

  unfoldable pub set_times : Option Timestamp → Option Timestamp → Step disk (Unit {0})
  set_times atime mtime = do
    metadata ← reading (λ w. checked (disk.symlink_metadata (make_real_path fs path) w))
    a ← reading (λ w. chosen_time atime metadata.accessed)
    m ← reading (λ w. chosen_time mtime metadata.modified)
    call (disk.set_file_times (make_real_path fs path) a m)

  unfoldable pub set_attributes : SetAttr → Step disk FileAttr
  set_attributes new = do
    set_mode new.mode
    set_ownership new.uid new.gid
    set_size new.size
    check_mtime new.mtime
    set_times new.atime new.mtime
    reading (get_attributes_by_path disk (make_real_path fs path))
