-- ===== src/Client/Remote/Decoding.antt =====
-- What the client reads of an answer: `handle_response` of client/src/network/client.rs, and the
-- records and errors that JSON carries by the names of their fields and variants.
use remote_file_system.Prelude.{
  ℕ, ◌+◌, ◌^◌, Bool, Option, none, some, List, [], ◌∷◌, leb, ltb, ◌&&◌, if◌then◌else◌,
}
use remote_file_system.Paths.{Text, text}
use remote_file_system.Action.{Outcome, ok, err}
use remote_file_system.Client.Attributes as Client
use remote_file_system.Client.Attributes.{Attributes}
use remote_file_system.Client.Errors.{FuseError, NetworkError}
use remote_file_system.Client.Network as Net
use remote_file_system.Client.Network.{RemoteStorage, Reply, done, failed}
use remote_file_system.Server.Errors.{
  ApiError, unauthorized, not_found, already_exists, not_a_directory, is_a_directory,
  directory_not_empty, permission_denied, operation_not_permitted, storage_full, out_of_memory,
  invalid_input, file_too_large, unsupported, cross_device_link, io_error, text_file_busy,
  resource_busy, try_again, internal_error,
}
use remote_file_system.Server.Attributes as Server
use remote_file_system.Server.Attributes.Records
use remote_file_system.Server.Requests.{
  Response, Body, listing, content, attributes, stats, target, token, value, names, no_content,
  ItemType, file_type, directory_type, sym_link_type, SerializableFsItem,
}

-- The error that a variant of the server's is read as, by its name.
unfoldable pub fuse_of_api : ApiError → FuseError
fuse_of_api (unauthorized m) = FuseError.unauthorized m
fuse_of_api (not_found m) = FuseError.not_found m
fuse_of_api (already_exists m) = FuseError.already_exists m
fuse_of_api (not_a_directory m) = FuseError.not_a_directory m
fuse_of_api (is_a_directory m) = FuseError.is_a_directory m
fuse_of_api (directory_not_empty m) = FuseError.directory_not_empty m
fuse_of_api (permission_denied m) = FuseError.permission_denied m
fuse_of_api (operation_not_permitted m) = FuseError.operation_not_permitted m
fuse_of_api (storage_full m) = FuseError.storage_full m
fuse_of_api (out_of_memory m) = FuseError.out_of_memory m
fuse_of_api (invalid_input m) = FuseError.invalid_input m
fuse_of_api (file_too_large m) = FuseError.file_too_large m
fuse_of_api (unsupported m) = FuseError.unsupported m
fuse_of_api (cross_device_link m) = FuseError.cross_device_link m
fuse_of_api (io_error m) = FuseError.io_error m
fuse_of_api (text_file_busy m) = FuseError.text_file_busy m
fuse_of_api (resource_busy m) = FuseError.resource_busy m
fuse_of_api (try_again m) = FuseError.try_again m
fuse_of_api (internal_error m) = FuseError.internal_error m

-- The kinds, by their names.
unfoldable pub kind_of_server : Server.FileType → Client.FileType
kind_of_server Server.named_pipe = Client.named_pipe
kind_of_server Server.char_device = Client.char_device
kind_of_server Server.block_device = Client.block_device
kind_of_server Server.directory = Client.directory
kind_of_server Server.regular_file = Client.regular_file
kind_of_server Server.symlink = Client.symlink
kind_of_server Server.socket = Client.socket

abbrev pub time_of_server : Records.Timestamp → Client.Timestamp
time_of_server t = record { sec = t.sec; nsec = t.nsec }

abbrev pub time_to_server : Client.Timestamp → Records.Timestamp
time_to_server t = record { sec = t.sec; nsec = t.nsec }

-- The fields, by their names.
unfoldable pub same_attributes : Records.FileAttr → Attributes
same_attributes a = record {
  size = a.size;
  blocks = a.blocks;
  atime = time_of_server a.atime;
  mtime = time_of_server a.mtime;
  ctime = time_of_server a.ctime;
  kind = kind_of_server a.kind;
  perm = a.perm;
  nlink = a.nlink;
  uid = a.uid;
  gid = a.gid;
  rdev = a.rdev;
  blksize = a.blksize;
}

-- The client's `perm` has 16 bits, and a greater number cannot be read.
unfoldable pub attributes_of_server : Records.FileAttr → Option Attributes
attributes_of_server a = if ltb a.perm (2 ^ 16) then some (same_attributes a) else none

abbrev pub stats_of_server : Records.Stats → Client.Stats
stats_of_server s = record {
  blocks = s.blocks;
  bfree = s.bfree;
  bavail = s.bavail;
  files = s.files;
  ffree = s.ffree;
  bsize = s.bsize;
  namelen = s.namelen;
  frsize = s.frsize;
}

abbrev pub map_time : Option Client.Timestamp → Option Records.Timestamp
map_time none = none
map_time (some t) = some (time_to_server t)

-- `SetAttrRequest::new`, of what the server reads.
abbrev pub set_attr_to_server : Client.SetAttr → Records.SetAttr
set_attr_to_server a = record {
  mode = a.mode;
  uid = a.uid;
  gid = a.gid;
  size = a.size;
  atime = map_time a.atime;
  mtime = map_time a.mtime;
}

-- `flags.bits()`
abbrev pub bits_of_flags : Client.RenameFlags → ℕ
bits_of_flags f = Server.bit f.noreplace 1 + Server.bit f.exchange 2 + Server.bit f.whiteout 4

abbrev pub item_type_of_server : ItemType → Net.ItemType
item_type_of_server file_type = Net.file_type
item_type_of_server directory_type = Net.directory_type
item_type_of_server sym_link_type = Net.sym_link_type

unfoldable pub items_of_server : List SerializableFsItem → Option (List Net.SerializableFsItem)
items_of_server [] = some []
items_of_server (i ∷ is) = elim (attributes_of_server i.attributes) [
  | none ↦ none
  | some a ↦ elim (items_of_server is) [
    | none ↦ none
    | some js ↦
        some (
          record { name = i.name; item_type = item_type_of_server i.item_type; attributes = a }
          ∷ js)
  ]
]

-- `resp.status().is_success()`
abbrev pub is_success : ℕ → Bool
is_success status = leb 200 status && ltb status 300

-- What an extractor gives; `none` is a body that it cannot read.
abbrev pub extracted : {A : Type 0} → Option A → Reply A
extracted none = failed (NetworkError.unexpected_response (text ""))
extracted (some a) = done a

-- The error in the body of an answer that is no success.
abbrev pub reported : {A : Type 0} → Outcome ApiError Body → Reply A
reported (err e) = failed (NetworkError.server_error (fuse_of_api e))
reported _ = failed (NetworkError.unexpected_response (text "Failed to parse remote error"))

-- What is in the body of a success.
abbrev pub received : {A : Type 0} → (Body → Option A) → Outcome ApiError Body → Reply A
received extractor (ok b) = extracted (extractor b)
received extractor _ = extracted none

-- `handle_response`, and the failure to get a response.
unfoldable pub handle_response : {A : Type 0} → (Body → Option A) → Option Response → Reply A
handle_response extractor none = failed (NetworkError.request (text ""))
handle_response extractor (some r) =
    if is_success r.status then received extractor r.body else reported r.body

-- The extractors, each for the body that it reads.
abbrev pub any_body : Body → Option (Unit {0})
any_body b = some tt

abbrev pub as_attributes : Body → Option Attributes
as_attributes (attributes a) = attributes_of_server a
as_attributes _ = none

abbrev pub as_bytes : Body → Option (List ℕ)
as_bytes (content b) = some b
as_bytes _ = none

abbrev pub as_stats : Body → Option Client.Stats
as_stats (stats s) = some (stats_of_server s)
as_stats _ = none

abbrev pub as_listing : Body → Option (List Net.SerializableFsItem)
as_listing (listing is) = items_of_server is
as_listing _ = none

abbrev pub as_target : Body → Option Text
as_target (target t) = some t
as_target _ = none

abbrev pub as_token : Body → Option Text
as_token (token t) = some t
as_token _ = none

abbrev pub as_names : Body → Option (List Text)
as_names (names ns) = some ns
as_names _ = none

abbrev pub as_value : Body → Option (Option (List ℕ))
as_value no_content = some none
as_value (value b) = some (some b)
as_value _ = none
