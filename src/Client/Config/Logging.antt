-- ===== src/Client/Config/Logging.antt =====
-- The configuration of the log: client/src/config/logging.rs. The file server/src/config/logging.rs has
-- the same `finalize`.
pub mod Targets
use remote_file_system.Prelude.{
  ℕ, Bool, true, false, ◌||◌, Option, none, some, List, [], ◌∷◌, leb, ◌==◌, if◌then◌else◌, ◌≡◌,
  refl, Bool-cases, inl, inr, arith,
}
use remote_file_system.Paths.{Text, text, FilePath, parse}
use remote_file_system.Util.{normalize_optional_path}

pub data LogTargets : Type 0 where
  none_target console file all : LogTargets

pub data LogFormat : Type 0 where
  full compact pretty json : LogFormat

pub data LogLevel : Type 0 where
  trace debug info warn error : LogLevel

pub data LogRotation : Type 0 where
  minutely hourly daily never : LogRotation

pub record LoggingConfig : Type 0 where
  pub log_targets : List LogTargets
  pub log_format : LogFormat
  pub log_level : LogLevel
  pub log_dir : Option FilePath
  pub log_file : Option FilePath
  pub log_rotation : Option LogRotation

abbrev pub default_log_dir : FilePath
default_log_dir = parse (text "./logs")

abbrev pub default_log_file : FilePath
default_log_file = parse (text "remote_fs_client")

-- `LoggingConfig::default`
unfoldable pub default_logging : LoggingConfig
default_logging = record {
  log_targets = all ∷ [];
  log_format = full;
  log_level = info;
  log_dir = some default_log_dir;
  log_file = some default_log_file;
  log_rotation = some never;
}

-- The order that is derived from the order of the variants.
abbrev pub rank : LogTargets → ℕ
rank none_target = 0
rank console = 1
rank file = 2
rank all = 3

-- `log_targets.sort()`
unfoldable pub insert_target : LogTargets → List LogTargets → List LogTargets
insert_target t [] = t ∷ []
insert_target t (u ∷ us) = if leb (rank t) (rank u) then t ∷ u ∷ us else u ∷ insert_target t us

unfoldable pub sort_targets : List LogTargets → List LogTargets
sort_targets [] = []
sort_targets (t ∷ ts) = insert_target t (sort_targets ts)

-- `log_targets.dedup()`, which takes away what is equal to the one before it.
unfoldable pub dedup_after : LogTargets → List LogTargets → List LogTargets
dedup_after t [] = []
dedup_after t (u ∷ us) = if rank t == rank u then dedup_after t us else u ∷ dedup_after u us

unfoldable pub dedup : List LogTargets → List LogTargets
dedup [] = []
dedup (t ∷ ts) = t ∷ dedup_after t ts

unfoldable pub contains : LogTargets → List LogTargets → Bool
contains t [] = false
contains t (u ∷ us) = (rank u == rank t) || contains t us

-- The special targets: none of all, and all of them.
unfoldable pub special : List LogTargets → List LogTargets
special ts =
    let cleared = if contains none_target ts then [] else ts in
    if contains all cleared then all ∷ [] else cleared

abbrev pub or_default : {A : Type 0} → A → Option A → Option A
or_default d none = some d
or_default d (some a) = some a

abbrev pub needs_file : List LogTargets → Bool
needs_file ts = contains all ts || contains file ts

-- The settings of the file, by the targets.
unfoldable pub with_file : Bool → LoggingConfig → LoggingConfig
with_file true c = record c {
  log_dir = or_default default_log_dir c.log_dir;
  log_file = or_default default_log_file c.log_file;
  log_rotation = or_default never c.log_rotation;
}
with_file false c = record c { log_dir = none; log_file = none; log_rotation = none }

unfoldable pub finalize : LoggingConfig → LoggingConfig
finalize c =
    let targets = special (dedup (sort_targets c.log_targets)) in
    with_file (needs_file targets) (record c {
      log_targets = targets;
      log_dir = normalize_optional_path c.log_dir;
      log_file = normalize_optional_path c.log_file;
    })
