-- ===== src/System/Link.antt =====
-- The server as what carries the client's requests: each one passes `auth_middleware` and its
-- handler, and the answer goes back (client/src/network/client.rs, server/src/routes.rs). The
-- network loses nothing; a handler that panics gives no answer. How a path and a number are
-- written are parameters, and so is what decodes and makes tokens.
use remote_file_system.Prelude.{ℕ, Bool, Option}
use remote_file_system.Paths.{Text, FilePath, text}
use remote_file_system.Action.{ok}
use remote_file_system.Client.Remote.{Http}
use remote_file_system.Server.Disk.{Disk}
use remote_file_system.Server.Storage.{FileSystem}
use remote_file_system.Server.Database.{Result}
use remote_file_system.Server.Database.Tokens.{Claims}
use remote_file_system.Server.Requests.{Response, Body, message, respond}
use remote_file_system.Server.Routes.{State, Handler}
use remote_file_system.Server.Routes.Handlers.{login}
use remote_file_system.Server.Routes.Session.{auth_middleware}

-- The server's state, its clock in seconds, and the client's in milliseconds.
pub record Wire (disk : Disk) : Type 0 where
  pub state : State disk
  pub seconds : ℕ
  pub milliseconds : ℕ

-- What the server's libraries do with tokens and passwords.
pub record Keys : Type 0 where
  pub decode_claims : Text → Option Claims
  pub verify_password : Text → Text → Bool
  pub generate_token : ℕ → ℕ → Result Text

module _ (disk : Disk) (fs : FileSystem) (keys : Keys) where
  abbrev pub answer : Handler disk Body → Wire disk → Option Response × Wire disk
  answer handler w = let (r, s) = handler w.state in (respond r, record w { state = s })

  abbrev pub link : (ℕ → Text) → (FilePath → Text) → Http
  link decimal spelling = record {
    Wire = Wire disk;
    now = λ w. w.milliseconds;
    send = λ h r w. answer (auth_middleware disk fs keys.decode_claims w.seconds h r) w;
    send_login =
        λ u p w. answer (login disk keys.verify_password keys.generate_token w.seconds u p) w;
    send_health = λ w. answer (λ s. (ok (message (text "RemoteFS Server is running")), s)) w;
    decimal = decimal;
    spelling = spelling;
  }
