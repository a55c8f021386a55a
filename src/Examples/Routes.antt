-- ===== src/Examples/Routes.antt =====
-- The server's routes on a small disk and an empty database.
use remote_file_system.Prelude.{
  ◌≡◌, refl, false, Option, none, some, [], ◌∷◌, ◌++◌, ◌⊎◌, arith, ℕ_discrete,
}
use remote_file_system.Paths.{
  Text, FilePath-discrete, Text-discrete, root_dir, normal, text, parse, segments, of_segments,
  is_dot, is_absolute, of_segment,
}
use remote_file_system.Server.Errors.{ApiError, unauthorized}
use remote_file_system.Server.Attributes.{permission_of_bits, permission_type_of_bits}
use remote_file_system.Action.{ok, err, is_ok}
use remote_file_system.Server.Storage.{
  FileSystem, make_real_path, attributes_of, permits, get_attributes_by_path, exists, nearest,
  is_allowed,
}
use remote_file_system.Server.Database.{ok as row}
use remote_file_system.Server.Database.Tokens.{
  AuthenticatedUser, Claims, insert_revoked_token, is_token_revoked, verify_token,
}
use remote_file_system.Server.Database.Tokens.Revocation.{AllUpTo, clean_at}
use remote_file_system.Server.Requests.{Request, rename_request, logout_request, message}
use remote_file_system.Server.Routes.{State}
use remote_file_system.Server.Routes.Handlers.{handle, logout}
use remote_file_system.Server.Routes.Guards.{needed, allows, all_allowed, denied_request}
use remote_file_system.Server.Routes.Session.{
  Header, header, after_prefix, token_of_header, with_token, auth_middleware,
}
use remote_file_system.Server.Routes.Session.Logout.{auth_middleware_sound, logout_ends_session}
use remote_file_system.Examples.Disk.{Entry, tree_disk, put}

abbrev served : FileSystem
served = record { real_path = root_dir ∷ normal (text "srv") ∷ [] }

abbrev private : Entry
private = record { is_dir = false; mode = 384; uid = 7; gid = 8; bytes = 1 ∷ 2 ∷ 3 ∷ [] }

abbrev start : State tree_disk
start = record {
  world = record {
    entries =
        put (root_dir ∷ normal (text "srv") ∷ normal (text "a") ∷ []) (some private) (λ q. none);
    position = 0;
  };
  database = record { users = []; revoked_tokens = []; xattributes = [] };
}

abbrev stranger : AuthenticatedUser
stranger = record { user_id = 1; group_id = 1; token_id = []; expiration_time = 1000 }

abbrev moving : Request
moving = rename_request (text "/a") (text "/b") 0

not_allowed : all_allowed tree_disk served stranger (needed moving) start.world ≡ false
unfolding needed all_allowed allows is_allowed nearest exists permits attributes_of
    permission_of_bits permission_type_of_bits get_attributes_by_path make_real_path parse segments
    of_segments is_dot is_absolute of_segment text FilePath-discrete Text-discrete ℕ_discrete
not_allowed = refl

denied_request_example :
    (is_ok (handle tree_disk served stranger moving start).0 ≡ false)
    × ((handle tree_disk served stranger moving start).1 ≡ start)
denied_request_example = denied_request tree_disk served stranger moving start not_allowed

abbrev claims : Claims
claims = record { user_id = 7; group_id = 8; token_id = 120 ∷ []; exp = 1000 }

abbrev decode_claims : Text → Option Claims
decode_claims t = some claims

abbrev bearing : Header
bearing = header (text "Bearer t")

auth_middleware_sound_example :
    ((e : ApiError) × (auth_middleware tree_disk served decode_claims 500 bearing logout_request
          start
        ≡ (err e, start)))
    ⊎ ((token : Text) × (user : AuthenticatedUser) × (bearing ≡ header (text "Bearer " ++ token))
        × (verify_token decode_claims 500 token start.database ≡ row user)
        × (auth_middleware tree_disk served decode_claims 500 bearing logout_request start
            ≡ handle tree_disk served user logout_request start))
auth_middleware_sound_example =
    auth_middleware_sound tree_disk served decode_claims 500 bearing logout_request start

logs_out :
    (auth_middleware tree_disk served decode_claims 500 bearing logout_request start).0
    ≡ ok (message (text "Logged out"))
unfolding auth_middleware token_of_header after_prefix with_token verify_token is_token_revoked
    insert_revoked_token handle logout text Text-discrete ℕ_discrete
logs_out = refl

cleanings : AllUpTo 900 (600 ∷ [])
unfolding AllUpTo
cleanings = (omega arith, tt)

logout_ends_session_example :
    let after =
      clean_at
        (600 ∷ [])
        (auth_middleware tree_disk served decode_claims 500 bearing logout_request
          start).1.database in
    auth_middleware tree_disk served decode_claims 900 bearing moving
      (record { world = start.world; database = after })
    ≡ (
      err (unauthorized (text "Invalid or expired token")),
      record { world = start.world; database = after },
    )
logout_ends_session_example =
    logout_ends_session tree_disk served decode_claims 500 900 bearing start
      (message (text "Logged out")) (600 ∷ []) moving start.world refl logs_out cleanings
