-- ===== src/Examples/Windows.antt =====
-- The theorems on the adapter to WinFSP at concrete inputs.
mod Listing
use mathlib.Core.List.{Perm}
use mathlib.Core.Option.{bind}
use remote_file_system.Prelude.{
  ℕ, ◌+◌, ◌*◌, ◌%◌, ◌≡◌, ◌≢◌, refl, true, false, Bool-cases, inl, inr, ltb, Option, none, some,
  List, [], ◌∷◌, ◌++◌, map, length, drop, arith, if◌then◌else◌, ℕ_discrete,
}
use remote_file_system.Paths.{
  Text, text, FilePath, root_dir, normal, path_is_utf8, parse, segments, of_segments, of_segment,
  is_dot, is_absolute, Text-discrete, FilePath-discrete,
}
use remote_file_system.Action.{ok}
use remote_file_system.Client.Action as ModelAction
use remote_file_system.Client.Attributes.{Timestamp}
use remote_file_system.Client.Errors.{invalid_credentials}
use remote_file_system.Client.Network.{
  RemoteStorage, SerializableFsItem, done, file_type, directory_type,
}
use remote_file_system.Client.WriteBuffer.{get_content}
use remote_file_system.Client.Model.{State, ask, path_to_string, cache_get, cache_try}
use remote_file_system.Client.Model.Data.{get_attributes}
use remote_file_system.Client.Model.Names.{get_parent_path}
use remote_file_system.Client.Model.Listing.{
  readdir, list_remote, list_path, put_children, with_dots, dot_entry, children_of,
}
use remote_file_system.Client.Model.Uploads.{pending}
use remote_file_system.Client.Windows.{
  Win32, Winfsp, FileInfo, winfsp_path_to_pathbuf, path_text, replace_backslashes,
}
use remote_file_system.Client.Windows.Times.{
  windows_epoch_diff, unix_to_filetime, filetime_to_unix, filetime_to_unix-unix_to_filetime,
}
use remote_file_system.Client.Windows.Reparse.{
  parse_symlink_target, reparse_buffer, parse_symlink_target-reparse_buffer,
}
use remote_file_system.Client.Windows.Files.{close, get_security, descriptor, handle_of}
use remote_file_system.Client.Windows.Files.Closing.{close_loses_refused}
use remote_file_system.Client.Windows.Creation.{create}
use remote_file_system.Client.Windows.Creation.Options.{asked, create_by_options}
use remote_file_system.Client.Windows.Files.Memory.{get_security_overruns}
use remote_file_system.Client.Windows.Entries.{
  entry, read_directory, get_dir_info_by_name, sort_by_name, insert_by_name, text_le, emit,
  from_marker, after_named,
}
use remote_file_system.Client.Windows.Entries.Lookup.{get_dir_info_ignores_directory}
use remote_file_system.Client.Windows.Entries.Order.{IsOrdered}
use remote_file_system.Client.Windows.Entries.Pages.{
  HasDistinctNames, KeepsEntries, Pages, page, last, pages_complete,
}
use remote_file_system.Examples.Server.{logging, plain}
use remote_file_system.Examples.Model.{notes, waiting, idle, system, some_bytes, utf8}

-- The constants as Windows documents them.
abbrev documented : Win32
documented = record {
  file_create = 2;
  file_open = 1;
  file_open_if = 3;
  file_directory_file = 1;
  file_non_directory_file = 64;
  file_attribute_directory = 16;
  file_attribute_normal = 128;
  file_attribute_reparse_point = 1024;
}

abbrev no_info : FileInfo
no_info = record {
  file_attributes = 0;
  reparse_tag = 0;
  allocation_size = 0;
  file_size = 0;
  creation_time = 0;
  last_access_time = 0;
  last_write_time = 0;
  change_time = 0;
  index_number = 0;
  hard_links = 0;
  ea_size = 0;
}

abbrev Entries : Type 0
Entries = List (Text × FileInfo)

-- Room for two entries.
abbrev put_two : Text × FileInfo → Entries → Option Entries
put_two e b = if ltb (length b) 2 then some (b ++ e ∷ []) else none

abbrev small : Winfsp
small = record {
  constants = documented;
  to_string = λ u. some u;
  to_string_lossy = λ u. u;
  hash = λ p. 0;
  default_info = no_info;
  name_error = λ t. none;
  Buffer = Entries;
  append = put_two;
  finalize = λ b. b;
  cursor = length;
}

put_two-append : (e : Text × FileInfo) (b b' : Entries) → put_two e b ≡ some b' → b' ≡ b ++ e ∷ []
put_two-append e b b' h = elim (Bool-cases (ltb (length b) 2)) [
  | inl room ↦ ground (arith, room, h)
  | inr full ↦ ground (arith, full, h)
]

put_two_first : (e : Text × FileInfo) → put_two e [] ≢ none
put_two_first e h = ground (arith, h)

abbrev small-KeepsEntries : KeepsEntries small
small-KeepsEntries = record {
  held = λ b. b;
  empty = [];
  holds_nothing = refl;
  has_room = put_two_first;
  appends = put_two-append;
  finalizes = λ b. refl;
}

filetime_to_unix-unix_to_filetime_example :
    (filetime_to_unix (unix_to_filetime (record { sec = 5; nsec = 7 }))
      ≡ some (record { sec = 5; nsec = 0 }))
    × ((u : Timestamp) × (filetime_to_unix (windows_epoch_diff * 10000000 + 12345678) ≡ some u)
        × (unix_to_filetime u + (windows_epoch_diff * 10000000 + 12345678) % 10000000
            ≡ windows_epoch_diff * 10000000 + 12345678)
        × (u.nsec ≡ (windows_epoch_diff * 10000000 + 12345678) % 10000000 * 100))
filetime_to_unix-unix_to_filetime_example =
    filetime_to_unix-unix_to_filetime (record { sec = 5; nsec = 7 })
      (windows_epoch_diff * 10000000 + 12345678) (omega arith) (omega arith) (omega arith)

parse_symlink_target-reparse_buffer_example :
    parse_symlink_target small (some (reparse_buffer (97 ∷ 98 ∷ []) (300 ∷ 99 ∷ [])))
    ≡ ok (300 ∷ 99 ∷ [])
parse_symlink_target-reparse_buffer_example =
    parse_symlink_target-reparse_buffer small (97 ∷ 98 ∷ []) (300 ∷ 99 ∷ [])
      (omega arith, (omega arith, tt)) (omega arith) (omega arith)

get_security_overruns_example :
    (get_security (some 8) (
      (0 ∷ 0 ∷ 0 ∷ 0 ∷ 0 ∷ 0 ∷ 0 ∷ 0 ∷ [])
      ++ (7 ∷ 7 ∷ 7 ∷ 7 ∷ 7 ∷ 7 ∷ 7 ∷ 7 ∷ 7 ∷ 7 ∷ 7 ∷ 7 ∷ 6 ∷ []))).1
    ≡ descriptor
      ++ drop (length descriptor) (
          (0 ∷ 0 ∷ 0 ∷ 0 ∷ 0 ∷ 0 ∷ 0 ∷ 0 ∷ [])
          ++ (7 ∷ 7 ∷ 7 ∷ 7 ∷ 7 ∷ 7 ∷ 7 ∷ 7 ∷ 7 ∷ 7 ∷ 7 ∷ 7 ∷ 6 ∷ []))
get_security_overruns_example =
    get_security_overruns 8 (0 ∷ 0 ∷ 0 ∷ 0 ∷ 0 ∷ 0 ∷ 0 ∷ 0 ∷ [])
      (7 ∷ 7 ∷ 7 ∷ 7 ∷ 7 ∷ 7 ∷ 7 ∷ 7 ∷ 7 ∷ 7 ∷ 7 ∷ 7 ∷ 6 ∷ []) refl (omega arith) (omega arith)
      (omega arith)

-- `\a`
abbrev name_a : List ℕ
name_a = 92 ∷ 97 ∷ []

abbrev path_of_a : FilePath
path_of_a = root_dir ∷ normal (97 ∷ []) ∷ []

name_a_read : winfsp_path_to_pathbuf small name_a ≡ ok path_of_a
unfolding winfsp_path_to_pathbuf path_text replace_backslashes parse segments of_segments of_segment
    is_dot is_absolute
name_a_read = refl

create_by_options_example :
    create small logging name_a 64 none false no_info (system true idle)
    ≡ asked small
        (record {
          opens = refl;
          creates = refl;
          opens_if = refl;
          is_directory = refl;
          is_file = refl;
        })
        logging
        64
        path_of_a
        no_info
        (system true idle)
create_by_options_example =
    create_by_options small
      (record {
        opens = refl;
        creates = refl;
        opens_if = refl;
        is_directory = refl;
        is_file = refl;
      })
      logging name_a path_of_a 64 none no_info (system true idle) name_a_read

close_loses_refused_example :
    ((close small logging (handle_of notes) (system false waiting)).0 ≡ ok tt)
    × (pending (close small logging (handle_of notes) (system false waiting)).1.write_buffer ≡ [])
unfolding get_content
close_loses_refused_example =
    close_loses_refused small logging (handle_of notes) (system false waiting) invalid_credentials
      some_bytes utf8 refl

get_dir_info_ignores_directory_example :
    get_dir_info_by_name small logging (handle_of notes) name_a (system true idle)
    ≡ get_dir_info_by_name small logging (handle_of path_of_a) name_a (system true idle)
get_dir_info_ignores_directory_example =
    get_dir_info_ignores_directory small logging (handle_of notes) (handle_of path_of_a) name_a
      (system true idle)
