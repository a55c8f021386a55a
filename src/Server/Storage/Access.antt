-- ===== src/Server/Storage/Access.antt =====
-- `is_allowed` of server/src/storage.rs against the bits of a mode.
use remote_file_system.Prelude.{ℕ, ◌/◌, ◌%◌, ◌≡◌, Bool, false, arith, ◌==◌, if◌then◌else◌}
use remote_file_system.Paths.{FilePath, root, same_path}
use remote_file_system.Server.Attributes.{
  Operation, read_operation, write_operation, execute_operation, owner_only, permission_of_bits,
  permission_type_of_bits,
}
use remote_file_system.Action.{ok}
use remote_file_system.Server.Disk.{Disk, Metadata, done}
use remote_file_system.Server.Storage.{
  FileSystem, make_real_path, attributes_of, permits, get_attributes_by_path, exists, nearest,
  is_allowed,
}

-- The octal digit of a mode for a user: the owner's, the group's or the others'.
abbrev pub digit_for : Metadata → ℕ → ℕ → ℕ
digit_for m user_id group_id =
    if user_id == m.uid
    then m.mode / 64 % 8
    else if group_id == m.gid
    then m.mode / 8 % 8
    else m.mode % 8

-- The bit of an operation in a digit; only the owner has what is for the owner only.
abbrev pub bit_allows : Metadata → ℕ → Operation → ℕ → Bool
bit_allows m user_id read_operation digit = digit / 4 % 2 == 1
bit_allows m user_id write_operation digit = digit / 2 % 2 == 1
bit_allows m user_id execute_operation digit = digit % 2 == 1
bit_allows m user_id owner_only digit = user_id == m.uid

permits_digit :
    (m : Metadata) (user_id group_id : ℕ) (operation : Operation)
    → permits (attributes_of m) user_id group_id operation
      ≡ bit_allows m user_id operation (digit_for m user_id group_id)
unfolding permits attributes_of permission_of_bits permission_type_of_bits
permits_digit m user_id group_id read_operation = ground arith
permits_digit m user_id group_id write_operation = ground arith
permits_digit m user_id group_id execute_operation = ground arith
permits_digit m user_id group_id owner_only = ground arith

-- For a path that exists and is not the root of the file system, `is_allowed` gives the bit of the
-- operation (4 to read, 2 to write, 1 to execute) in one octal digit of the mode: the first digit
-- for the owner, else the second for the group, else the third. What is for the owner only is
-- allowed to the owner alone.
pub is_allowed_mode :
    (disk : Disk) (fs : FileSystem) (user_id group_id : ℕ) (path : FilePath) (operation : Operation)
    (w : disk.World) (m : Metadata)
    → disk.symlink_metadata (make_real_path fs path) w ≡ done m
    → same_path (make_real_path fs path) (make_real_path fs root) ≡ false
    → is_allowed disk fs user_id group_id path operation w
      ≡ ok (bit_allows m user_id operation (digit_for m user_id group_id))
unfolding is_allowed nearest exists get_attributes_by_path
is_allowed_mode disk fs user_id group_id path operation w m e r =
    ground (arith, e, r, permits_digit m user_id group_id operation)
