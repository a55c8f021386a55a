-- ===== src/Server/Routes.antt =====
-- The handlers of server/src/routes.rs and the check of the token of server/src/middleware.rs, over
-- the disk and the database. A request runs to its end before the next. What decodes a path out of
-- a URL and what reads a JSON body are left to the web framework.
pub mod Handlers
pub mod Guards
pub mod Session
use remote_file_system.Prelude.{
  ℕ, Bool, true, false, Option, none, some, List, [], ◌∷◌, ◌++◌, ◌==◌, if◌then◌else◌,
}
use remote_file_system.Paths.{Text, FilePath, text, parse}
use remote_file_system.Server.Errors.{
  ApiError, StorageError, permission_denied, api_of_storage, api_of_database,
}
use remote_file_system.Server.Attributes.{Operation}
use remote_file_system.Action.{
  Action, Outcome, ok, err, panicked, and_then, map_err, pure, raise, reading,
}
use remote_file_system.Server.Disk.{Disk}
use remote_file_system.Server.Storage.{FileSystem, is_allowed}
use remote_file_system.Server.Storage.Files.{Step}
use remote_file_system.Server.Database.{Database, Result, Query, ok as row, err as row_err}
use remote_file_system.Server.Database.Tokens.{AuthenticatedUser}

pub record State (disk : Disk) : Type 0 where
  pub world : disk.World
  pub database : Database

abbrev pub of_result : {A : Type 0} → Result A → Outcome ApiError A
of_result (row a) = ok a
of_result (row_err e) = err (api_of_database e)

module _ (disk : Disk) where
  -- A handler.
  abbrev pub Handler : Type 0 → Type 0
  Handler A = Action ApiError (State disk) A

  -- An operation of the storage with `?`.
  abbrev pub storage : {A : Type 0} → Step disk A → Handler A
  storage f s = let (r, w) = f s.world in (map_err api_of_storage r, record s { world = w })

  -- What only reads the storage, with `?`.
  abbrev pub stored : {A : Type 0} → (disk.World → Outcome StorageError A) → Handler A
  stored f = reading (λ s. map_err api_of_storage (f s.world))

  -- A query of the database with `?`.
  abbrev pub query : {A : Type 0} → Query A → Handler A
  query q s = let (r, d) = q s.database in (of_result r, record s { database = d })

  abbrev pub denied : Bool → Outcome ApiError (Unit {0})
  denied true = ok tt
  denied false = err (permission_denied (text "You do not have the needed permissions."))

  unfoldable pub check_permission :
      FileSystem → AuthenticatedUser → Text → Operation → Handler (Unit {0})
  check_permission fs user path op = reading (λ s.
      and_then
        (map_err api_of_storage
          (is_allowed disk fs user.user_id user.group_id (parse path) op s.world))
        denied)
