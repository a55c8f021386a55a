-- ===== src/Examples/Storage.antt =====
-- The server's storage and routes on a small disk.
use remote_file_system.Prelude.{
  ℕ, ◌≡◌, refl, true, false, not, ◌||◌, none, some, List, [], ◌∷◌, ◌++◌, ◌≤◌, length, take, drop,
  ℕ_discrete,
}
use remote_file_system.Paths.{
  FilePath, FilePath-discrete, Text-discrete, root_dir, parent_dir, normal, text, root, same_path,
}
use remote_file_system.Server.Errors.{permission_denied}
use remote_file_system.Server.Attributes.{
  write_operation, owner_only, permission_of_bits, permission_type_of_bits,
}
use remote_file_system.Server.Attributes.Records.{since_epoch, SetAttr}
use remote_file_system.Action.{ok, err, is_ok}
use remote_file_system.Server.Disk.{Metadata, done}
use remote_file_system.Server.Disk.Laws.{after_write}
use remote_file_system.Server.Storage.{
  FileSystem, make_real_path, without_root, attributes_of, permits, get_attributes_by_path, exists,
  nearest, is_allowed,
}
use remote_file_system.Server.Storage.Access.{is_allowed_mode, bit_allows, digit_for}
use remote_file_system.Server.Storage.Confinement.{make_real_path_confined, goes_down, has_parent}
use remote_file_system.Server.Storage.Owners.{
  is_just, set_attributes, set_mode, set_ownership, resolve, resolve_owner, set_size, check_mtime,
  set_times, chosen_time,
}
use remote_file_system.Server.Storage.Owners.Denials.{
  asks_same, set_attributes_denied, set_attributes_keeps_owner,
}
use remote_file_system.Server.Storage.Files.{write_file, read_file, set_owner}
use remote_file_system.Server.Storage.Files.RoundTrip.{read_file-write_file}
use remote_file_system.Examples.Disk.{Tree, Entry, tree_disk, tree_disk-KeepsBytes, put}

abbrev served : FileSystem
served = record { real_path = root_dir ∷ normal (text "srv") ∷ [] }

abbrev path_a : FilePath
path_a = root_dir ∷ normal (text "a") ∷ []

abbrev real_a : FilePath
real_a = root_dir ∷ normal (text "srv") ∷ normal (text "a") ∷ []

abbrev real_b : FilePath
real_b = root_dir ∷ normal (text "srv") ∷ normal (text "b") ∷ []

abbrev entry_a : Entry
entry_a = record { is_dir = false; mode = 416; uid = 7; gid = 8; bytes = 1 ∷ 2 ∷ 3 ∷ [] }

abbrev entry_b : Entry
entry_b = record { is_dir = false; mode = 384; uid = 9; gid = 8; bytes = [] }

abbrev two_files : Tree
two_files = record {
  entries = put real_a (some entry_a) (put real_b (some entry_b) (λ q. none));
  position = 0;
}

abbrev metadata_a : Metadata
metadata_a = record {
  is_dir = false;
  is_file = true;
  is_symlink = false;
  len = 3;
  accessed = since_epoch 0 0;
  modified = since_epoch 0 0;
  ctime = record { sec = 0; nsec = 0 };
  mode = 416;
  uid = 7;
  gid = 8;
}

found_a : tree_disk.symlink_metadata (make_real_path served path_a) two_files ≡ done metadata_a
unfolding make_real_path text FilePath-discrete Text-discrete ℕ_discrete
found_a = refl

not_root : same_path (make_real_path served path_a) (make_real_path served root) ≡ false
unfolding make_real_path text FilePath-discrete Text-discrete ℕ_discrete
not_root = refl

is_allowed_mode_example :
    is_allowed tree_disk served 1 8 path_a write_operation two_files
    ≡ ok (bit_allows metadata_a 1 write_operation (digit_for metadata_a 1 8))
is_allowed_mode_example =
    is_allowed_mode tree_disk served 1 8 path_a write_operation two_files metadata_a found_a
      not_root

make_real_path_confined_example :
    (make_real_path served (root_dir ∷ parent_dir ∷ normal (text "etc") ∷ [])
      ≡ served.real_path ++ without_root (root_dir ∷ parent_dir ∷ normal (text "etc") ∷ []))
    × (goes_down (without_root (root_dir ∷ parent_dir ∷ normal (text "etc") ∷ []))
        ≡ not (has_parent (root_dir ∷ parent_dir ∷ normal (text "etc") ∷ [])))
make_real_path_confined_example =
    make_real_path_confined served (root_dir ∷ parent_dir ∷ normal (text "etc") ∷ []) refl

not_owner : is_allowed tree_disk served 1 8 path_a owner_only two_files ≡ ok false
not_owner =
    is_allowed_mode tree_disk served 1 8 path_a owner_only two_files metadata_a found_a not_root

abbrev give_away : SetAttr
give_away = record {
  mode = none;
  uid = some 1;
  gid = none;
  size = some 0;
  atime = none;
  mtime = none;
}

set_attributes_denied_example :
    set_attributes tree_disk served path_a 1 8 give_away two_files
    ≡ (err permission_denied, two_files)
set_attributes_denied_example =
    set_attributes_denied tree_disk served path_a 1 8 give_away two_files not_owner refl

abbrev same_owner : SetAttr
same_owner = record {
  mode = none;
  uid = some 7;
  gid = some 8;
  size = none;
  atime = none;
  mtime = none;
}

attributes_a :
    get_attributes_by_path tree_disk (make_real_path served path_a) two_files
    ≡ ok (attributes_of metadata_a)
unfolding get_attributes_by_path make_real_path text FilePath-discrete Text-discrete ℕ_discrete
attributes_a = refl

may_change : is_ok (set_attributes tree_disk served path_a 7 8 same_owner two_files).0 ≡ true
unfolding set_attributes set_mode set_ownership resolve_owner resolve set_size check_mtime set_times
    chosen_time is_allowed nearest exists permits attributes_of permission_of_bits
    permission_type_of_bits get_attributes_by_path make_real_path text FilePath-discrete
    Text-discrete ℕ_discrete
may_change = refl

set_attributes_keeps_owner_example :
    (asks_same same_owner.uid (attributes_of metadata_a).uid ≡ true)
    × ((asks_same same_owner.gid (attributes_of metadata_a).gid || is_just same_owner.gid 8) ≡ true)
set_attributes_keeps_owner_example =
    set_attributes_keeps_owner tree_disk served path_a 7 8 same_owner two_files
      (attributes_of metadata_a) refl refl attributes_a may_change

abbrev written : Tree
written = (write_file tree_disk served 7 8 path_a (9 ∷ 9 ∷ []) 2 two_files).1

writes : write_file tree_disk served 7 8 path_a (9 ∷ 9 ∷ []) 2 two_files ≡ (ok tt, written)
unfolding write_file set_owner exists make_real_path text FilePath-discrete Text-discrete ℕ_discrete
writes = refl

abbrev given : List ℕ
given = 2 ∷ 9 ∷ 9 ∷ []

reads_back :
    read_file tree_disk served path_a 1 8 written
    ≡ (ok given, (read_file tree_disk served path_a 1 8 written).1)
unfolding read_file write_file set_owner exists make_real_path text FilePath-discrete Text-discrete
    ℕ_discrete
reads_back = refl

read_file-write_file_example :
    (length given ≤ 8)
    × (given
        ≡ take (length given) (
            drop 1 (
              after_write
                (tree_disk-KeepsBytes.bytes (make_real_path served path_a) two_files)
                2
                (9 ∷ 9 ∷ []))))
read_file-write_file_example =
    read_file-write_file tree_disk tree_disk-KeepsBytes served 7 8 path_a (9 ∷ 9 ∷ []) 2 1 8 given
      two_files written (read_file tree_disk served path_a 1 8 written).1 writes reads_back
