-- ===== src/Server/Attributes.antt =====
-- Permissions, file types and access operations: server/src/attributes.rs.
pub mod Packing
pub mod Records
use remote_file_system.Prelude.{
  ℕ, suc, ◌+◌, ◌*◌, ◌/◌, ◌%◌, Bool, true, false, Option, none, some, ◌==◌, if◌then◌else◌,
}

pub data FileType : Type 0 where
  named_pipe char_device block_device directory regular_file symlink socket : FileType

pub record PermissionType : Type 0 where
  pub read : Bool
  pub write : Bool
  pub execute : Bool

pub record Permission : Type 0 where
  pub user : PermissionType
  pub group : PermissionType
  pub other : PermissionType

pub data Operation : Type 0 where
  read_operation write_operation execute_operation owner_only : Operation

-- `Operation::try_from`; `none` is the error "Invalid mask".
unfoldable pub operation_of_mask : ℕ → Option Operation
operation_of_mask mask =
    if mask == 4
    then some read_operation
    else if mask == 2
    then some write_operation
    else if mask == 1
    then some execute_operation
    else none

unfoldable pub tag_of_file_type : FileType → ℕ
tag_of_file_type named_pipe = 0
tag_of_file_type char_device = 1
tag_of_file_type block_device = 2
tag_of_file_type directory = 3
tag_of_file_type regular_file = 4
tag_of_file_type symlink = 5
tag_of_file_type socket = 6

-- `none` is the error "Invalid FileType".
unfoldable pub file_type_of_tag : ℕ → Option FileType
file_type_of_tag value =
    if value == 0
    then some named_pipe
    else if value == 1
    then some char_device
    else if value == 2
    then some block_device
    else if value == 3
    then some directory
    else if value == 4
    then some regular_file
    else if value == 5
    then some symlink
    else if value == 6
    then some socket
    else none

-- A bit that is set or not.
abbrev pub bit : Bool → ℕ → ℕ
bit true n = n
bit false n = 0

-- The three bits are disjoint, so that their `|` is their sum.
unfoldable pub bits_of_permission_type : PermissionType → ℕ
bits_of_permission_type p = bit p.read 4 + bit p.write 2 + bit p.execute 1

-- `value & bit != 0`
abbrev pub has_bit : ℕ → ℕ → Bool
has_bit value n = value / n % 2 == 1

unfoldable pub permission_type_of_bits : ℕ → PermissionType
permission_type_of_bits value = record {
  read = has_bit value 4;
  write = has_bit value 2;
  execute = has_bit value 1;
}

-- `user << 6 | group << 3 | other`, of three numbers below 8.
unfoldable pub bits_of_permission : Permission → ℕ
bits_of_permission p =
    bits_of_permission_type p.user * 64
    + bits_of_permission_type p.group * 8
    + bits_of_permission_type p.other

unfoldable pub permission_of_bits : ℕ → Permission
permission_of_bits value = record {
  user = permission_type_of_bits (value / 64);
  group = permission_type_of_bits (value / 8);
  other = permission_type_of_bits value;
}
