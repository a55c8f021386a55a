-- ===== src/System/Uploads.antt =====
-- The uploads of the client, down to the disk of the server.
use remote_file_system.Prelude.{
  ℕ, ◌≡◌, refl, sym, ap, ◌∙◌, Bool-cases, false, true, Option, inl, inr, List, arith,
}
use remote_file_system.Paths.{Text, FilePath, path_is_utf8, parse}
use remote_file_system.Action.{Outcome, ok, err, panicked, bind-ok, outcome-cases}
use remote_file_system.Client.Action as ModelAction
use remote_file_system.Client.Cache.{Cache, cache_write_file}
use remote_file_system.Client.Pages.{Limits}
use remote_file_system.Client.WriteBuffer.{get_content, clean}
use remote_file_system.Client.Network.{RemoteStorage, done, reply-cases}
use remote_file_system.Client.Attributes.{Attributes}
use remote_file_system.Client.Remote.{RemoteClient, auth_header, request, remote_client}
use remote_file_system.Client.Model.{State as ClientState, ask, path_to_string, cache_try}
use remote_file_system.Client.Model.Data.{is_empty, upload, flush_write_buffer}
use remote_file_system.Client.Remote.Decoding.{handle_response, as_attributes, is_success}
use remote_file_system.Server.Errors.{ApiError}
use remote_file_system.Server.Attributes.{write_operation}
use remote_file_system.Server.Disk.{Disk}
use remote_file_system.Server.Disk.Laws.{KeepsBytes, overwrite, after_write, after_write-overwrite}
use remote_file_system.Server.Storage as FileStorage
use remote_file_system.Server.Storage.{FileSystem, make_real_path}
use remote_file_system.Server.Storage.Files as FilesOf
use remote_file_system.Server.Storage.Files.RoundTrip.{bytes-write_file}
use remote_file_system.Server.Database.Tokens.{AuthenticatedUser}
use remote_file_system.Server.Requests.{write_request, Body, respond, status_code}
use remote_file_system.Server.Routes.{State, check_permission, storage, stored}
use remote_file_system.Server.Routes.Handlers
use remote_file_system.Server.Routes.Session.{auth_middleware, Header}
use remote_file_system.Server.Routes.Session.Logout.{auth_middleware_sound}
use remote_file_system.System.Link.{Keys, link}

error_status : (e : ApiError) → is_success (status_code e) ≡ false
unfolding status_code
error_status (ApiError.unauthorized _) = refl
error_status (ApiError.not_found _) = refl
error_status (ApiError.already_exists _) = refl
error_status (ApiError.not_a_directory _) = refl
error_status (ApiError.is_a_directory _) = refl
error_status (ApiError.directory_not_empty _) = refl
error_status (ApiError.permission_denied _) = refl
error_status (ApiError.operation_not_permitted _) = refl
error_status (ApiError.storage_full _) = refl
error_status (ApiError.out_of_memory _) = refl
error_status (ApiError.invalid_input _) = refl
error_status (ApiError.file_too_large _) = refl
error_status (ApiError.unsupported _) = refl
error_status (ApiError.cross_device_link _) = refl
error_status (ApiError.io_error _) = refl
error_status (ApiError.text_file_busy _) = refl
error_status (ApiError.resource_busy _) = refl
error_status (ApiError.try_again _) = refl
error_status (ApiError.internal_error _) = refl

-- An answer that the client takes as a success comes from a handler that has succeeded.
answered :
    {A : Type 0} (extractor : Body → Option A) (r : Outcome ApiError Body) (a : A)
    → handle_response extractor (respond r) ≡ done a
    → (b : Body) × (r ≡ ok b)
unfolding handle_response respond
answered extractor (ok b) a h = (b, refl)
answered extractor (err e) a h = ground (arith, h, error_status e)
answered extractor panicked a h = ground (arith, h)

module _ (disk : Disk) (laws : KeepsBytes disk) (fs : FileSystem) where
  storage-ok :
      {A : Type 0} (f : FilesOf.Step disk A) (s s' : State disk) (a : A)
      → storage disk f s ≡ (ok a, s')
      → f s.world ≡ (ok a, s'.world)
  storage-ok f s s' a h = elim (outcome-cases (f s.world).0) [
    | inl (b, e) ↦ ground (arith, e, h)
    | inr (inl (_, e)) ↦ ground (arith, e, h)
    | inr (inr e) ↦ ground (arith, e, h)
  ]

  -- A write that the handler has done is on the disk.
  handled_write :
      (user : AuthenticatedUser) (path : Text) (offset : ℕ) (bytes : List ℕ) (s s' : State disk)
      (b : Body)
      → Handlers.write_file disk fs user path offset bytes s ≡ (ok b, s')
      → laws.bytes (make_real_path fs (parse path)) s'.world
        ≡ after_write (laws.bytes (make_real_path fs (parse path)) s.world) offset bytes
  unfolding Handlers.write_file check_permission
  handled_write user path offset bytes s s' b h =
      let write = FilesOf.write_file disk fs user.user_id user.group_id (parse path) bytes offset in
      let (_, s1, h1, r1) =
        bind-ok (check_permission disk fs user path write_operation) _ s s' b h in
      let (_, s2, h2, r2) = bind-ok (storage disk write) _ s1 s' b r1 in
      let (_, s3, h3, r3) =
        bind-ok (stored disk (FileStorage.get_attributes disk fs (parse path))) _ s2 s' b r2 in
      let on_disk =
        bytes-write_file disk laws fs user.user_id user.group_id (parse path) bytes offset s1.world
          s2.world (storage-ok write s1 s2 tt h2) in
      ground
        (arith, on_disk, ap (λ r. r.1.world) h1, ap (λ r. r.1.world) h3, ap (λ r. r.1.world) r3)

  -- A write that passes the check of the token is on the disk.
  authorized_write :
      (keys : Keys) (now : ℕ) (h : Header) (path : Text) (offset : ℕ) (bytes : List ℕ)
      (s s' : State disk) (b : Body)
      → auth_middleware disk fs keys.decode_claims now h (write_request path offset bytes) s
        ≡ (ok b, s')
      → laws.bytes (make_real_path fs (parse path)) s'.world
        ≡ after_write (laws.bytes (make_real_path fs (parse path)) s.world) offset bytes
  unfolding Handlers.handle
  authorized_write keys now h path offset bytes s s' b done_so =
      elim (auth_middleware_sound disk fs keys.decode_claims now h (write_request path offset bytes)
        s) [
          | inl (e, refused) ↦ ground (arith, refused, done_so)
          | inr (token, user, shape, accepted, same) ↦
              handled_write user path offset bytes s s' b (sym same ∙ done_so)
        ]

  module _ (keys : Keys) (decimal : ℕ → Text) (spelling : FilePath → Text) where
    abbrev pub server : RemoteStorage
    server = remote_client (link disk fs keys decimal spelling)

    -- The bytes on the disk of the file at a path.
    abbrev pub on_disk : FilePath → RemoteClient (link disk fs keys decimal spelling) → List ℕ
    on_disk path c = laws.bytes (make_real_path fs path) c.wire.state.world

    requested_write :
        (path : FilePath) (offset : ℕ) (bytes : List ℕ)
        (c : RemoteClient (link disk fs keys decimal spelling)) (a : Attributes)
        → parse (spelling path) ≡ path
        → (server.write_file path offset bytes c).0 ≡ done a
        → on_disk path (server.write_file path offset bytes c).1
          ≡ after_write (on_disk path c) offset bytes
    unfolding request
    requested_write path offset bytes c a p h =
        let run =
          auth_middleware disk fs keys.decode_claims c.wire.seconds
            (auth_header (link disk fs keys decimal spelling) c.token_store)
            (write_request (spelling path) offset bytes) c.wire.state in
        let (b, e) = answered as_attributes run.0 a h in
        let lands =
          authorized_write keys c.wire.seconds
            (auth_header (link disk fs keys decimal spelling) c.token_store) (spelling path) offset
            bytes c.wire.state run.1 b (ap (λ r. (r, run.1)) e) in
        ground (arith, p, lands)

    -- The cache is no part of what the server holds.
    cache_try-remote :
        (change : Limits → Cache → ℕ → Option Cache) (s : ClientState server)
        → (cache_try server change s).1.remote ≡ s.remote
    unfolding cache_try
    cache_try-remote change s = ground arith

    upload_lands :
        (path : FilePath) (offset : ℕ) (bytes : List ℕ) (s : ClientState server)
        → parse (spelling path) ≡ path
        → (upload server (path, offset, bytes) s).0 ≡ ModelAction.ok tt
        → on_disk path (upload server (path, offset, bytes) s).1.remote
          ≡ after_write (on_disk path s.remote) offset bytes
    unfolding upload path_to_string ask
    upload_lands path offset bytes s p h = elim (Bool-cases (path_is_utf8 path)) [
      | inr e ↦ ground (arith, e, h)
      | inl e ↦ elim (reply-cases (server.write_file path offset bytes s.remote).0) [
        | inr (f, r) ↦ ground (arith, e, r, h)
        | inl (a, r) ↦ ground (
          arith,
          e,
          r,
          requested_write path offset bytes s.remote a p r,
          cache_try-remote (λ l c now. cache_write_file l c now path offset bytes true)
              (record s { remote = (server.write_file path offset bytes s.remote).1 }),
        )
      ]
    ]

    -- A flush that succeeds on a buffer that holds bytes leaves them on the server's disk: the file is
    -- what it was, overwritten with the bytes of the buffer at their offset. The path is read by the
    -- server as it was written.
    pub flush_reaches_disk :
        (path : FilePath) (offset : ℕ) (bytes : List ℕ) (s : ClientState server)
        → get_content s.write_buffer ≡ (path, offset, bytes)
        → is_empty bytes ≡ false
        → parse (spelling path) ≡ path
        → (flush_write_buffer server s).0 ≡ ModelAction.ok tt
        → on_disk path (flush_write_buffer server s).1.remote
          ≡ overwrite (on_disk path s.remote) offset bytes
    unfolding flush_write_buffer
    flush_reaches_disk path offset bytes s held some_bytes p h = ground (
      arith,
      held,
      some_bytes,
      h,
      upload_lands path offset bytes (record s { write_buffer = clean s.write_buffer }) p,
      after_write-overwrite (on_disk path s.remote) offset bytes some_bytes,
    )
