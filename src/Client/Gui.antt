-- ===== src/Client/Gui.antt =====
-- The graphical interface of the client: client/src/gui/logic.rs. What the window shows is a record,
-- and each callback is a function of the state; what a callback gives to the event loop is done at
-- its end. The rounding of the numbers in two messages and the timers are left out.
pub mod Edits
pub mod Session
use remote_file_system.Prelude.{
  ℕ, ◌+◌, ◌-◌, ◌*◌, ◌%◌, ◌^◌, ◌<◌, ◌≤◌, Bool, true, false, Option, none, some, List, [], ltb,
  if◌then◌else◌,
}
use mathlib.Core.Logic.{ite}
use remote_file_system.Paths.{Text, text, Text-discrete, FilePath}
use remote_file_system.Client.Cache.{CachePolicy, lru, lfu}
use remote_file_system.Client.Config.{RfsConfig}
use remote_file_system.Client.Config.Logging.{
  LogFormat, full, compact, pretty, json, LogLevel, trace, debug, info, warn, error, LogRotation,
  minutely, hourly, daily, never,
}

pub data Status : Type 0 where
  not_logged_in logged_in : Status

-- What `load_config` puts into the window; a number is the bit pattern of an `i32`.
pub record Settings : Type 0 where
  pub allow_other : Bool
  pub mount_point : Text
  pub privileged : Bool
  pub read_only : Bool
  pub capacity : ℕ
  pub cache_enabled : Bool
  pub max_size : ℕ
  pub policy : Text
  pub ttl : ℕ
  pub use_ttl : Bool
  pub buffer_size : ℕ
  pub foreground : Bool
  pub max_pages : ℕ
  pub page_size : ℕ
  pub xattr_enable : Bool
  pub log_dir : Text
  pub log_file : Text
  pub log_format : Text
  pub log_level : Text
  pub log_rotation : Text

pub record Window : Type 0 where
  pub settings : Settings
  pub status : Status
  pub fs_is_active : Bool
  pub is_loading : Bool
  pub server_unavailable : Bool
  pub show_restore_default : Bool
  pub error_message : Text

-- `Gui`, with whether there is a daemon; its runtime and its client are apart.
pub record Gui : Type 0 where
  pub window : Window
  pub daemon : Bool
  pub default_config : RfsConfig
  pub config : RfsConfig

-- `to_string` of the settings.
unfoldable pub policy_text : CachePolicy → Text
policy_text lru = text "LRU"
policy_text lfu = text "LFU"

unfoldable pub format_text : LogFormat → Text
format_text full = text "FULL"
format_text compact = text "COMPACT"
format_text pretty = text "PRETTY"
format_text json = text "JSON"

-- `to_string_gui`
unfoldable pub level_text : LogLevel → Text
level_text trace = text "TRACE"
level_text debug = text "DEBUG"
level_text info = text "INFO"
level_text warn = text "WARN"
level_text error = text "ERROR"

unfoldable pub rotation_text : LogRotation → Text
rotation_text minutely = text "MINUTELY"
rotation_text hourly = text "HOURLY"
rotation_text daily = text "DAILY"
rotation_text never = text "NEVER"

abbrev pub or_empty : {A : Type 0} → (A → Text) → Option A → Text
or_empty f none = []
or_empty f (some a) = f a

-- `as i32`
abbrev pub as_i32 : ℕ → ℕ
as_i32 n = n % 2 ^ 32

-- `as usize`, of an `i32`: a negative number keeps its sign.
abbrev pub as_usize : ℕ → ℕ
as_usize v = if ltb v (2 ^ 31) then v else v + (2 ^ 64 - 2 ^ 32)

-- A string in a `match`.
abbrev pub is : Text → Text → Bool
is a b = ite (Text-discrete a b) true false

-- What `load_config` shows; `spelling` is `to_string_lossy`.
unfoldable pub settings_of : (FilePath → Text) → RfsConfig → Settings
settings_of spelling c = record {
  allow_other = c.mount.allow_other;
  mount_point = spelling c.mount_point;
  privileged = c.mount.privileged;
  read_only = c.mount.read_only;
  capacity = as_i32 c.cache.capacity;
  cache_enabled = c.cache.enabled;
  max_size = as_i32 c.cache.max_size;
  policy = policy_text c.cache.policy;
  ttl = as_i32 c.cache.ttl;
  use_ttl = c.cache.use_ttl;
  buffer_size = as_i32 c.file_system.buffer_size;
  foreground = c.foreground;
  max_pages = as_i32 c.file_system.max_pages;
  page_size = as_i32 c.file_system.page_size;
  xattr_enable = c.file_system.xattr_enable;
  log_dir = or_empty spelling c.logging.log_dir;
  log_file = or_empty spelling c.logging.log_file;
  log_format = format_text c.logging.log_format;
  log_level = level_text c.logging.log_level;
  log_rotation = or_empty rotation_text c.logging.log_rotation;
}

-- `load_config`, which never fails.
unfoldable pub load_config : (FilePath → Text) → RfsConfig → Window → Window
load_config spelling c w = record w { settings = settings_of spelling c }
