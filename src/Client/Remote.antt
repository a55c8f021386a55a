-- ===== src/Client/Remote.antt =====
-- `RemoteClient` of client/src/network/client.rs, which asks the server over HTTP, with the token of
-- client/src/network/middleware.rs. A request and an answer are kept as what the libraries encode
-- and decode: the paths of a URL, the query and the JSON of a body on one side are those on the
-- other. What carries them is a parameter.
pub mod Decoding
use remote_file_system.Prelude.{
  ℕ, ◌+◌, ◌^◌, Bool, Option, none, some, List, [], ◌∷◌, ◌++◌, leb, ltb, ◌&&◌, if◌then◌else◌,
}
use remote_file_system.Paths.{Text, FilePath, text}
use remote_file_system.Action.{Outcome, ok, err, panicked}
use remote_file_system.Client.Attributes as Client
use remote_file_system.Client.Attributes.{Attributes}
use remote_file_system.Client.Errors.{FuseError, NetworkError}
use remote_file_system.Client.Network as Net
use remote_file_system.Client.Network.{RemoteStorage, Reply, done, failed}
use remote_file_system.Server.Errors.{
  ApiError, unauthorized, not_found, already_exists, not_a_directory, is_a_directory,
  directory_not_empty, permission_denied, operation_not_permitted, storage_full, out_of_memory,
  invalid_input, file_too_large, unsupported, cross_device_link, io_error, text_file_busy,
  resource_busy, try_again, internal_error,
}
use remote_file_system.Server.Attributes as Server
use remote_file_system.Server.Attributes.Records
use remote_file_system.Server.Requests.{
  Request, list_request, read_request, write_request, mkdir_request, delete_request, rename_request,
  get_attributes_request, set_attributes_request, permissions_request, stats_request,
  symlink_request, read_symlink_request, set_x_attributes_request, get_x_attributes_request,
  list_x_attributes_request, delete_x_attributes_request, logout_request, Response, Body, listing,
  content, attributes, stats, target, token, value, names, no_content, ItemType, file_type,
  directory_type, sym_link_type, SerializableFsItem,
}
use remote_file_system.Server.Routes.Session.{Header, missing, header}
use remote_file_system.Client.Remote.Decoding.{
  fuse_of_api, set_attr_to_server, bits_of_flags, handle_response, any_body, as_attributes,
  as_bytes, as_stats, as_listing, as_target, as_token, as_names, as_value,
}

-- The carrier: what sends a request, with its header, and may give no answer; the clock of the
-- client; the decimal digits of a number; and what a path is as a string.
pub record Http : Type 1 where
  pub Wire : Type 0
  pub now : Wire → ℕ
  pub send : Header → Request → Wire → Option Response × Wire
  pub send_login : Text → Text → Wire → Option Response × Wire
  pub send_health : Wire → Option Response × Wire
  pub decimal : ℕ → Text
  pub spelling : FilePath → Text

-- `RemoteClient`: the token of its `TokenStore`, beside the wire.
pub record RemoteClient (http : Http) : Type 0 where
  pub token_store : Option Text
  pub wire : http.Wire

module _ (http : Http) where
  -- A method of the client.
  abbrev pub Call : Type 0 → Type 0
  Call A = RemoteClient http → Reply A × RemoteClient http

  -- The header that `AuthMiddleware` adds.
  unfoldable pub auth_header : Option Text → Header
  auth_header none = missing
  auth_header (some t) = header (text "Bearer " ++ t)

  -- `send().await?`, then `handle_response`
  unfoldable pub request : {A : Type 0} → Request → (Body → Option A) → Call A
  request r extractor c =
      let (response, w) = http.send (auth_header c.token_store) r c.wire in
      (handle_response extractor response, record c { wire = w })

  unfoldable pub health_check : Call (Unit {0})
  health_check c =
      let (response, w) = http.send_health c.wire in
      (handle_response any_body response, record c { wire = w })

  -- The token that a login has given, in the store.
  abbrev pub keep_token : Reply Text → RemoteClient http → Reply Text × RemoteClient http
  keep_token (done t) c = (done t, record c { token_store = some t })
  keep_token (failed e) c = (failed e, c)

  unfoldable pub login : Text → Text → Call Text
  login username password c =
      let (response, w) = http.send_login username password c.wire in
      keep_token (handle_response as_token response) (record c { wire = w })

  abbrev pub drop_token :
      Reply (Unit {0}) → RemoteClient http → Reply (Unit {0}) × RemoteClient http
  drop_token (done _) c = (done tt, record c { token_store = none })
  drop_token (failed e) c = (failed e, c)

  unfoldable pub logout : Call (Unit {0})
  logout c = let (r, c') = request logout_request any_body c in drop_token r c'

  -- The methods that the file system model calls.
  abbrev pub remote_client : RemoteStorage
  remote_client = record {
    World = RemoteClient http;
    now = λ c. http.now c.wire;
    get_attributes = λ p. request (get_attributes_request (http.spelling p)) as_attributes;
    set_attributes = λ p a.
        request (set_attributes_request (http.spelling p) (set_attr_to_server a)) as_attributes;
    get_x_attributes = λ p n. request (get_x_attributes_request (http.spelling p) n) as_value;
    set_x_attributes = λ p n b. request (set_x_attributes_request (http.spelling p) n b) any_body;
    list_x_attributes = λ p. request (list_x_attributes_request (http.spelling p)) as_names;
    remove_x_attributes = λ p n. request (delete_x_attributes_request (http.spelling p) n) any_body;
    get_permissions =
        λ p mask. request (permissions_request (http.spelling p) (http.decimal mask)) any_body;
    get_stats = λ p. request (stats_request (http.spelling p)) as_stats;
    list_path = λ p. request (list_request (http.spelling p)) as_listing;
    read_file = λ p offset size. request (read_request (http.spelling p) offset size) as_bytes;
    write_file = λ p offset b. request (write_request (http.spelling p) offset b) as_attributes;
    mkdir = λ p. request (mkdir_request (http.spelling p)) as_attributes;
    rename = λ p q f.
        request (rename_request (http.spelling p) (http.spelling q) (bits_of_flags f)) any_body;
    remove = λ p. request (delete_request (http.spelling p)) any_body;
    create_symlink = λ p t. request (symlink_request (http.spelling p) t) as_attributes;
    read_symlink = λ p. request (read_symlink_request (http.spelling p)) as_target;
  }
