-- ===== src/Server/Routes/Session.antt =====
-- `auth_middleware` of server/src/middleware.rs in front of the handlers.
pub mod Logout
use remote_file_system.Prelude.{
  ℕ, Bool, true, false, Option, none, some, List, [], ◌∷◌, ◌==◌, if◌then◌else◌,
}
use remote_file_system.Paths.{Text, text}
use remote_file_system.Server.Errors.{ApiError, unauthorized, invalid_input}
use remote_file_system.Action.{Outcome, ok, err, panicked, raise}
use remote_file_system.Server.Disk.{Disk}
use remote_file_system.Server.Storage.{FileSystem}
use remote_file_system.Server.Database.{ok as row, err as row_err}
use remote_file_system.Server.Database.Tokens.{AuthenticatedUser, Claims, verify_token}
use remote_file_system.Server.Requests.{Request, Body}
use remote_file_system.Server.Routes.{State, Handler}
use remote_file_system.Server.Routes.Handlers.{handle}

-- The `Authorization` header as `to_str` reads it.
pub data Header : Type 0 where
  missing : Header
  unreadable : Header
  header : Text → Header

-- The rest of a text after a prefix.
unfoldable pub after_prefix : Text → Text → Option Text
after_prefix [] t = some t
after_prefix (c ∷ p) [] = none
after_prefix (c ∷ p) (d ∷ t) = let rest = after_prefix p t in if d == c then rest else none

unfoldable pub token_of_header : Header → Outcome ApiError Text
token_of_header missing = err (unauthorized (text "Missing Authorization Header"))
token_of_header unreadable = err (invalid_input (text "Invalid Header"))
token_of_header (header h) = elim (after_prefix (text "Bearer ") h) [
  | none ↦ err (unauthorized (text "Invalid Token Format"))
  | some token ↦ ok token
]

module _ (disk : Disk) (fs : FileSystem) (decode_claims : Text → Option Claims) where
  unfoldable pub with_token : ℕ → Text → Request → Handler disk Body
  with_token now token request s = elim (verify_token decode_claims now token s.database) [
    | row user ↦ handle disk fs user request s
    | row_err e ↦ raise (unauthorized (text "Invalid or expired token")) s
  ]

  -- A request as it arrives: its header, then its handler.
  unfoldable pub auth_middleware : ℕ → Header → Request → Handler disk Body
  auth_middleware now h request s = elim (token_of_header h) [
    | ok token ↦ with_token now token request s
    | err e ↦ raise e s
    | panicked ↦ (panicked, s)
  ]
