-- ===== src/Examples/Uploads.antt =====
-- A flush through the whole system on a small disk.
use remote_file_system.Prelude.{ℕ, ◌≡◌, refl, true, none, some, List, [], ◌∷◌, ℕ_discrete}
use remote_file_system.Paths.{
  text, FilePath-discrete, Text-discrete, path_is_utf8, parse, segments, of_segments, of_segment,
  is_dot, is_absolute,
}
use remote_file_system.Client.Action as ModelAction
use remote_file_system.Client.WriteBuffer.{WriteBuffer, get_content}
use remote_file_system.Client.Model.{FileSystem as ClientFileSystem, ask, path_to_string, cache_try}
use remote_file_system.Client.Model.Data.{flush_write_buffer, upload}
use remote_file_system.Client.Remote.{RemoteClient, auth_header, request}
use remote_file_system.Client.Remote.Decoding.{
  handle_response, attributes_of_server, same_attributes, kind_of_server,
}
use remote_file_system.Server.Disk.Laws.{overwrite}
use remote_file_system.Server.Database.Tokens.{Claims, verify_token, is_token_revoked}
use remote_file_system.Server.Requests.{respond}
use remote_file_system.Server.Attributes.{permission_of_bits, permission_type_of_bits}
use remote_file_system.Server.Storage as FileStorage
use remote_file_system.Server.Storage.{
  make_real_path, is_allowed, nearest, permits, exists, get_attributes_by_path, attributes_of,
}
use remote_file_system.Server.Storage.Files as FilesOf
use remote_file_system.Server.Routes.{check_permission}
use remote_file_system.Server.Routes.Handlers
use remote_file_system.Server.Routes.Session.{
  auth_middleware, token_of_header, after_prefix, with_token,
}
use remote_file_system.System.Link.{Keys, link}
use remote_file_system.System.Uploads.{server, on_disk, flush_reaches_disk}
use remote_file_system.Examples.Disk.{tree_disk, tree_disk-KeepsBytes}
use remote_file_system.Examples.System.{served, path_a, spelling, decimal, start, spelled, keys}

abbrev owner : Claims
owner = record { user_id = 7; group_id = 8; token_id = 120 ∷ []; exp = 1000 }

abbrev owner_keys : Keys
owner_keys = record keys { decode_claims = λ t. some owner }

abbrev two_bytes : List ℕ
two_bytes = 9 ∷ 8 ∷ []

abbrev unsent : WriteBuffer
unsent = record {
  path = path_a;
  offset = 2;
  valid_up_to = 2;
  buffer = 9 ∷ 8 ∷ 0 ∷ 0 ∷ [];
  capacity = 4;
}

abbrev wired : ClientFileSystem (RemoteClient (link tree_disk served owner_keys decimal spelling))
wired = record {
  remote = record {
    token_store = start.remote.token_store;
    wire = record { state = start.remote.wire.state; seconds = 500; milliseconds = 0 };
  };
  limits = start.limits;
  current_fh = 1;
  xattributes_enabled = true;
  file_handlers = [];
  read_buffer = start.read_buffer;
  write_buffer = unsent;
  cache = none;
}

content_of_unsent : get_content unsent ≡ (path_a, 2, two_bytes)
unfolding get_content
content_of_unsent = refl

flushes :
    (flush_write_buffer
      (server tree_disk tree_disk-KeepsBytes served owner_keys decimal spelling)
      wired).0
    ≡ ModelAction.ok tt
unfolding flush_write_buffer get_content upload path_to_string path_is_utf8 ask request auth_header
    auth_middleware token_of_header after_prefix with_token verify_token is_token_revoked
    Handlers.handle Handlers.write_file check_permission FilesOf.write_file
    FileStorage.get_attributes FilesOf.set_owner exists is_allowed nearest permits attributes_of
    permission_of_bits permission_type_of_bits get_attributes_by_path make_real_path parse segments
    of_segments is_dot is_absolute of_segment text respond handle_response attributes_of_server
    same_attributes kind_of_server cache_try FilePath-discrete Text-discrete ℕ_discrete
flushes = refl

flush_reaches_disk_example :
    on_disk tree_disk tree_disk-KeepsBytes served owner_keys decimal spelling path_a
      (flush_write_buffer
        (server tree_disk tree_disk-KeepsBytes served owner_keys decimal spelling)
        wired).1.remote
    ≡ overwrite
        (on_disk tree_disk tree_disk-KeepsBytes served owner_keys decimal spelling path_a
          wired.remote)
        2
        two_bytes
flush_reaches_disk_example =
    flush_reaches_disk tree_disk tree_disk-KeepsBytes served owner_keys decimal spelling path_a 2
      two_bytes wired content_of_unsent refl spelled flushes
