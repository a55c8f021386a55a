-- ===== src/Client/Commands.antt =====
-- The commands of client/src/commands.rs that write a configuration file and that unmount. The disk and
-- the TOML of a configuration are parameters.
pub mod Generating
use remote_file_system.Prelude.{
  Bool, true, false, not, ◌&&◌, Option, none, some, [], ◌∷◌, ◌==◌, if◌then◌else◌,
}
use remote_file_system.Paths.{Text, text, FilePath, file_name, with_extension, before_last_dot}
use remote_file_system.Util.{normalize_path}
use remote_file_system.Action.{Outcome, ok, err, panicked}
use remote_file_system.Client.Gui.{is}
use remote_file_system.Client.Config.{RfsConfig, default_config}
use remote_file_system.Client.Startup.{Platform, candidates, first_started}

-- `CommandError::ExecutionFailed`
pub data CommandError : Type 0 where
  execution_failed : Text → CommandError

-- The bytes after the last dot of a name.
abbrev pub after_last_dot : Text → Option Text
after_last_dot [] = none
after_last_dot (c ∷ t) = elim (after_last_dot t) [
  | some u ↦ some u
  | none ↦ if c == 46 then some t else none
]

-- The extension of a name: one that starts with its only dot has none.
abbrev pub extension_of_name : Text → Option Text
extension_of_name t = elim (before_last_dot t) [
  | none ↦ none
  | some [] ↦ none
  | some (c ∷ u) ↦ after_last_dot t
]

abbrev pub extension_of : Option Text → Option Text
extension_of none = none
extension_of (some t) = extension_of_name t

-- `Path::extension`
abbrev pub extension : FilePath → Option Text
extension p = extension_of (file_name p)

abbrev pub by_extension : Text → FilePath → Option Text → Outcome CommandError FilePath
by_extension e p none = ok (with_extension e p)
by_extension e p (some x) =
    if is x e
    then ok p
    else err (execution_failed (text "File has a different extension than the required one"))

unfoldable pub ensure_extension : Text → FilePath → Outcome CommandError FilePath
ensure_extension e p = by_extension e p (extension p)

-- The files that a command sees and writes; a result is none for success.
pub record Files : Type 1 where
  pub World : Type 0
  pub exists : FilePath → World → Bool
  pub write : FilePath → Text → World → Option Text × World

module _ (files : Files) where
  abbrev pub Run : Type 0
  Run = Outcome CommandError (Unit {0}) × files.World

  abbrev pub written : Option Text × files.World → Run
  written (none, w) = (ok tt, w)
  written (some m, w) = (err (execution_failed m), w)

  -- The text of the default configuration, where it can be formatted, at a path.
  abbrev pub write_formatted : Option Text → FilePath → files.World → Run
  write_formatted none q w = (err (execution_failed (text "Failed to generate default TOML")), w)
  write_formatted (some t) q w = written (files.write q t w)

  abbrev pub generate : Option Text → Bool → Outcome CommandError FilePath → files.World → Run
  generate toml force (err e) w = (err e, w)
  generate toml force panicked w = (panicked, w)
  generate toml force (ok q) w =
      if files.exists q w && not force
      then (err (execution_failed (text "File already exists. Use --force to replace it.")), w)
      else write_formatted toml q w

  -- `TomlConfigGenerator::execute`, with the formatter.
  unfoldable pub execute : (RfsConfig → Option Text) → Bool → FilePath → files.World → Run
  execute format force output w =
      generate (format default_config) force
        (ensure_extension (text "toml") (normalize_path output)) w

-- `CliUnmountArgs::execute`
unfoldable pub execute_unmount :
    (platform : Platform)
    → FilePath
    → platform.World
    → Outcome CommandError (Unit {0}) × platform.World
execute_unmount platform mount_point w =
    let (started, w1) = first_started platform (candidates platform) mount_point w in
    (
      (if started
          then ok tt
          else err (execution_failed (text "No suitable lazy-unmount command available"))),
      w1,
    )
