-- ===== src/Server/Requests.antt =====
-- The requests that the routes of server/src/routes.rs take, read and answered: the records of
-- server/src/models.rs, the query of server/src/attributes.rs and the status of an error.
use remote_file_system.Prelude.{
  ℕ, ◌+◌, ◌-◌, ◌*◌, ◌^◌, ◌&&◌, Option, none, some, List, [], ◌∷◌, leb, ltb, ◌==◌, if◌then◌else◌,
}
use remote_file_system.Paths.{Text, text}
use remote_file_system.Server.Errors.{
  ApiError, unauthorized, not_found, already_exists, not_a_directory, is_a_directory,
  directory_not_empty, permission_denied, operation_not_permitted, storage_full, out_of_memory,
  invalid_input, file_too_large, unsupported, cross_device_link, io_error, text_file_busy,
  resource_busy, try_again, internal_error,
}
use remote_file_system.Server.Attributes.{has_bit}
use remote_file_system.Server.Attributes.Records.{FileAttr, SetAttr, Stats}
use remote_file_system.Action.{Outcome, ok, err, panicked}
use remote_file_system.Server.Nodes
use remote_file_system.Server.Nodes.{FsItem, sym_link, directory}
use remote_file_system.Server.Storage.{RenameFlags}

pub data ItemType : Type 0 where
  file_type directory_type sym_link_type : ItemType

pub record SerializableFsItem : Type 0 where
  pub name : Text
  pub item_type : ItemType
  pub attributes : FileAttr

abbrev pub type_of_item : FsItem → ItemType
type_of_item (Nodes.file n a) = file_type
type_of_item (sym_link n a) = sym_link_type
type_of_item (directory n a c) = directory_type

-- `SerializableFSItem::new`; `none` is the panic on the name.
unfoldable pub serializable : FsItem → Option SerializableFsItem
serializable i = elim (Nodes.name i) [
  | none ↦ none
  | some n ↦ some (record { name = n; item_type = type_of_item i; attributes = Nodes.attributes i })
]

-- `map(SerializableFSItem::new)`
unfoldable pub serializable_all : List FsItem → Option (List SerializableFsItem)
serializable_all [] = some []
serializable_all (i ∷ is) = elim (serializable i) [
  | none ↦ none
  | some j ↦ elim (serializable_all is) [ none ↦ none | some js ↦ some (j ∷ js) ]
]

-- The number that decimal digits stand for, after those read so far.
unfoldable pub digits : ℕ → Text → Option ℕ
digits n [] = some n
digits n (c ∷ t) =
    let rest = digits (n * 10 + (c - 48)) t in if leb 48 c && leb c 57 then rest else none

abbrev pub without_sign : Text → Text
without_sign [] = []
without_sign (c ∷ t) = if c == 43 then t else c ∷ t

-- `str::parse::<u32>`
unfoldable pub parse_u32 : Text → Option ℕ
parse_u32 t = elim (without_sign t) [
  | [] ↦ none
  | c ∷ u ↦ elim (digits 0 (c ∷ u)) [
    | none ↦ none
    | some n ↦ if ltb n (2 ^ 32) then some n else none
  ]
]

abbrev pub or_invalid : Option ℕ → Outcome ApiError ℕ
or_invalid none = err (invalid_input (text "Invalid mask"))
or_invalid (some n) = ok n

-- `OperationQuery::get_mask`
unfoldable pub get_mask : Text → Outcome ApiError ℕ
get_mask mask = or_invalid (parse_u32 mask)

-- `RenameFlags::from_bits_truncate`
unfoldable pub rename_flags_of_bits : ℕ → RenameFlags
rename_flags_of_bits n = record {
  noreplace = has_bit n 1;
  exchange = has_bit n 2;
  whiteout = has_bit n 4;
}

-- A request of a user who is logged in, with its path, its query and its body.
pub data Request : Type 0 where
  list_request : Text → Request
  read_request : Text → ℕ → ℕ → Request
  write_request : Text → ℕ → List ℕ → Request
  mkdir_request : Text → Request
  delete_request : Text → Request
  rename_request : Text → Text → ℕ → Request
  get_attributes_request : Text → Request
  set_attributes_request : Text → SetAttr → Request
  permissions_request : Text → Text → Request
  stats_request : Text → Request
  symlink_request : Text → Text → Request
  read_symlink_request : Text → Request
  set_x_attributes_request : Text → Text → List ℕ → Request
  get_x_attributes_request : Text → Text → Request
  list_x_attributes_request : Text → Request
  delete_x_attributes_request : Text → Text → Request
  logout_request : Request

-- The body of an answer that is no error.
pub data Body : Type 0 where
  message : Text → Body
  finished : Body
  no_content : Body
  listing : List SerializableFsItem → Body
  content : List ℕ → Body
  attributes : FileAttr → Body
  stats : Stats → Body
  target : Text → Body
  token : Text → Body
  value : List ℕ → Body
  names : List Text → Body

-- `ApiError::status_code`
unfoldable pub status_code : ApiError → ℕ
status_code (unauthorized _) = 401
status_code (not_found _) = 404
status_code (already_exists _) = 409
status_code (not_a_directory _) = 400
status_code (is_a_directory _) = 400
status_code (directory_not_empty _) = 409
status_code (permission_denied _) = 403
status_code (operation_not_permitted _) = 403
status_code (storage_full _) = 507
status_code (out_of_memory _) = 507
status_code (invalid_input _) = 400
status_code (file_too_large _) = 413
status_code (unsupported _) = 501
status_code (cross_device_link _) = 501
status_code (io_error _) = 500
status_code (text_file_busy _) = 500
status_code (resource_busy _) = 503
status_code (try_again _) = 503
status_code (internal_error _) = 500

-- `HttpResponse`: its status, and its body or error.
pub record Response : Type 0 where
  pub status : ℕ
  pub body : Outcome ApiError Body

abbrev pub status_of_body : Body → ℕ
status_of_body no_content = 204
status_of_body _ = 200

-- `error_response`, and the answer of a handler that returns; `none` is a handler that panics.
unfoldable pub respond : Outcome ApiError Body → Option Response
respond (ok b) = some (record { status = status_of_body b; body = ok b })
respond (err e) = some (record { status = status_code e; body = err e })
respond panicked = none
