-- ===== src/Examples/Model.antt =====
-- `FileSystem` of client/src/fs_model.rs on small inputs.
use remote_file_system.Prelude.{
  ℕ, ◌≡◌, refl, Bool, true, false, none, List, [], ◌∷◌, ◌++◌, arith, ℕ_discrete,
}
use mathlib.Core.Option.{bind}
use remote_file_system.Paths.{FilePath, normal, root_dir, path_is_utf8, FilePath-discrete}
use remote_file_system.Client.Action.{ok, err}
use remote_file_system.Client.Errors.{FsModelError, invalid_credentials}
use remote_file_system.Client.WriteBuffer.{WriteBuffer, get_content, write, is_full, clean}
use remote_file_system.Client.WriteBuffer.Stream.{IsValid}
use remote_file_system.Client.ReadBuffer
use remote_file_system.Client.Model.{FileSystem, path_to_string, ask, cache_try, cache_get}
use remote_file_system.Client.Model.Names.{remove}
use remote_file_system.Client.Model.Data.{
  stage, Upload, write_file, flush_write_buffer, read_file, get_attributes, read_buffered,
  read_remote, is_empty, upload, upload_all,
}
use remote_file_system.Client.Model.Uploads.{cells_from, all_cells, pending}
use remote_file_system.Client.Model.Session
use remote_file_system.Client.Model.Session.{sent_to}
use remote_file_system.Client.Model.Failures
use remote_file_system.Client.Model.Failures.{Fails, cache_after, removing}
use remote_file_system.Examples.Server.{Server, logging, logging-KeepsWrites}

abbrev pub notes : FilePath
notes = root_dir ∷ normal (110 ∷ []) ∷ []

abbrev other : FilePath
other = root_dir ∷ normal (111 ∷ []) ∷ []

-- Two bytes of `notes` wait in a buffer of four.
abbrev pub waiting : WriteBuffer
waiting = record {
  path = notes;
  offset = 4;
  valid_up_to = 2;
  buffer = 7 ∷ 8 ∷ 0 ∷ 0 ∷ [];
  capacity = 4;
}

abbrev pub idle : WriteBuffer
idle = record { path = []; offset = 0; valid_up_to = 0; buffer = 0 ∷ 0 ∷ 0 ∷ 0 ∷ []; capacity = 4 }

waiting-IsValid : IsValid waiting
waiting-IsValid = record { storage = refl; filled = omega arith; end = omega arith }

idle-IsValid : IsValid idle
idle-IsValid = record { storage = refl; filled = omega arith; end = omega arith }

abbrev pub system : Bool → WriteBuffer → FileSystem Server
system accepts buffer = record {
  remote = (accepts, []);
  limits = record { page_size = 4; max_pages = 2 };
  current_fh = 1;
  xattributes_enabled = true;
  file_handlers = [];
  read_buffer = ReadBuffer.empty 0 4;
  write_buffer = buffer;
  cache = none;
}

abbrev commands : List Upload
commands = (notes, 0, 1 ∷ 2 ∷ []) ∷ (notes, 2, 3 ∷ 4 ∷ 5 ∷ []) ∷ (other, 0, 6 ∷ []) ∷ []

abbrev taken : List Upload
taken = (notes, 0, 1 ∷ 2 ∷ []) ∷ (notes, 2, 3 ∷ 4 ∷ []) ∷ (other, 0, 6 ∷ []) ∷ []

idle_empty : pending idle ≡ []
unfolding get_content cells_from
idle_empty = refl

in_range : Session.InRange 4 commands
unfolding Session.InRange
in_range = (omega arith, (omega arith, (omega arith, tt)))

succeeds : (Session.session logging commands (system true idle)).0 ≡ ok taken
unfolding Session.session Session.write_all write_file upload_all upload stage write is_full clean
    get_content flush_write_buffer path_to_string ask cache_try path_is_utf8 FilePath-discrete
    ℕ_discrete
succeeds = refl

session_sends_all_example :
    let s' = (Session.session logging commands (system true idle)).1 in
    (sent_to logging logging-KeepsWrites s'
      ≡ sent_to logging logging-KeepsWrites (system true idle) ++ all_cells taken)
    × (pending s'.write_buffer ≡ [])
session_sends_all_example =
    Session.session_sends_all logging logging-KeepsWrites commands (system true idle) taken
      idle-IsValid (omega arith) idle_empty in_range succeeds

pub some_bytes : is_empty (get_content waiting).2 ≡ false
unfolding get_content
some_bytes = refl

pub utf8 : path_is_utf8 notes ≡ true
unfolding path_is_utf8
utf8 = refl

refused :
    (remove logging notes (system false waiting)).0
    ≡ err (FsModelError.server_error invalid_credentials)
unfolding remove path_to_string ask path_is_utf8
refused = refl

error_keeps_cache_example : cache_after logging removing notes (system false waiting) ≡ none
error_keeps_cache_example =
    Failures.error_keeps_cache logging removing notes (system false waiting)
      (FsModelError.server_error invalid_credentials, refused)

abbrev got : List ℕ
got = 1 ∷ 2 ∷ []

reads : (read_file logging notes 0 2 (system true idle)).0 ≡ ok got
unfolding read_file get_attributes read_buffered read_remote cache_get cache_try path_to_string ask
    path_is_utf8 ReadBuffer.empty ReadBuffer.read FilePath-discrete bind
reads = refl

writes : (write_file logging notes 6 (1 ∷ 2 ∷ 3 ∷ []) (system true waiting)).0 ≡ ok 2
unfolding write_file upload_all upload stage write is_full clean get_content path_to_string ask
    cache_try path_is_utf8 FilePath-discrete ℕ_discrete
writes = refl

flushes : (flush_write_buffer logging (system true waiting)).0 ≡ ok tt
unfolding upload get_content flush_write_buffer path_to_string ask cache_try path_is_utf8
flushes = refl
