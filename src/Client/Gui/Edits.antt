-- ===== src/Client/Gui/Edits.antt =====
-- The callbacks of client/src/gui/logic.rs that change the configuration.
pub mod Limits
pub mod Restoring
use remote_file_system.Prelude.{
  ℕ, ◌+◌, ◌-◌, ◌*◌, ◌%◌, ◌^◌, Bool, true, false, not, ◌||◌, Option, none, some, List, [], ltb, leb,
  if◌then◌else◌,
}
use remote_file_system.Paths.{Text, text, FilePath, parse}
use remote_file_system.Client.Cache.{lru, lfu}
use remote_file_system.Client.Config.{RfsConfig}
use remote_file_system.Client.Config.Logging.{
  LogFormat, full, compact, pretty, json, LogLevel, trace, debug, info, warn, error, LogRotation,
  minutely, hourly, daily, never,
}
use remote_file_system.Client.Gui.{Gui, Window, is, as_usize, load_config}

-- `StringItem`, `BoolItem` and `IntItem` of the window.
pub record Item (A : Type 0) : Type 0 where
  pub env : Text
  pub id_rust : Text
  pub value : A

abbrev pub policy_named : Text → RfsConfig → RfsConfig
policy_named v c =
    if is v (text "LRU")
    then record c { cache = record c.cache { policy = lru } }
    else if is v (text "LFU")
    then record c { cache = record c.cache { policy = lfu } }
    else c

abbrev pub format_named : Text → Option LogFormat
format_named v =
    if is v (text "COMPACT")
    then some compact
    else if is v (text "FULL")
    then some full
    else if is v (text "JSON")
    then some json
    else if is v (text "PRETTY")
    then some pretty
    else none

abbrev pub level_named : Text → Option LogLevel
level_named v =
    if is v (text "DEBUG")
    then some debug
    else if is v (text "ERROR")
    then some error
    else if is v (text "INFO")
    then some info
    else if is v (text "TRACE")
    then some trace
    else if is v (text "WARN")
    then some warn
    else none

abbrev pub rotation_named : Text → Option LogRotation
rotation_named v =
    if is v (text "MINUTELY")
    then some minutely
    else if is v (text "HOURLY")
    then some hourly
    else if is v (text "DAILY")
    then some daily
    else if is v (text "NEVER")
    then some never
    else none

abbrev pub or_keep : {A : Type 0} → A → Option A → A
or_keep old none = old
or_keep old (some new) = new

abbrev pub or_keep_some : {A : Type 0} → Option A → Option A → Option A
or_keep_some old none = old
or_keep_some old (some new) = some new

-- The settings of the log; another name changes nothing.
unfoldable pub change_log : Text → Text → RfsConfig → RfsConfig
change_log id v c =
    let l = c.logging in
    if is id (text "log_format")
    then record c { logging = record l { log_format = or_keep l.log_format (format_named v) } }
    else if is id (text "log_level")
    then record c { logging = record l { log_level = or_keep l.log_level (level_named v) } }
    else if is id (text "log_dir")
    then record c { logging = record l { log_dir = some (parse v) } }
    else if is id (text "log_file")
    then record c { logging = record l { log_file = some (parse v) } }
    else if is id (text "log_rotation")
    then record c {
      logging = record l { log_rotation = or_keep_some l.log_rotation (rotation_named v) };
    }
    else c

unfoldable pub change_string : Item Text → RfsConfig → RfsConfig
change_string o c =
    if is o.env (text "MOUNT")
    then (if is o.id_rust (text "mountpoint") then record c { mount_point = parse o.value } else c)
    else if is o.env (text "CACHE")
    then (if is o.id_rust (text "policy") then policy_named o.value c else c)
    else if is o.env (text "LOG")
    then change_log o.id_rust o.value c
    else c

unfoldable pub change_bool : Item Bool → RfsConfig → RfsConfig
change_bool o c =
    if is o.env (text "MOUNT")
    then (if is o.id_rust (text "allow_other")
        then record c { mount = record c.mount { allow_other = o.value } }
        else if is o.id_rust (text "read_only")
        then record c { mount = record c.mount { read_only = o.value } }
        else if is o.id_rust (text "privileged")
        then record c { mount = record c.mount { privileged = o.value } }
        else c)
    else if is o.env (text "CACHE")
    then (if is o.id_rust (text "cache_enabled")
        then record c { cache = record c.cache { enabled = o.value } }
        else if is o.id_rust (text "use_ttl")
        then record c { cache = record c.cache { use_ttl = o.value } }
        else c)
    else if is o.env (text "FS")
    then (if is o.id_rust (text "xattr_enable")
        then record c { file_system = record c.file_system { xattr_enable = o.value } }
        else c)
    else c

-- A gibibyte.
abbrev pub cache_limit : ℕ
cache_limit = 1024 * 1024 * 1024

-- The product of two `usize`.
abbrev pub mul_usize : ℕ → ℕ → ℕ
mul_usize a b = (a * b) % 2 ^ 64

-- The new configuration, or the message of an error.
pub data Checked : Type 0 where
  changed : RfsConfig → Checked
  refused : Text → Checked

-- The numbers that the messages end with are left out.
unfoldable pub change_cache : Text → ℕ → RfsConfig → Checked
change_cache id v c =
    if is id (text "max_size")
    then (if leb (mul_usize c.cache.capacity (as_usize v)) cache_limit
        then changed (record c { cache = record c.cache { max_size = as_usize v } })
        else refused (text "Considering the actual cache capacity and 1 GB cache limit"))
    else if is id (text "capacity")
    then (if leb (mul_usize c.cache.max_size (as_usize v)) cache_limit
        then changed (record c { cache = record c.cache { capacity = as_usize v } })
        else refused (text "Considering the actual cache entry max size and 1 GB cache limit"))
    else if is id (text "ttl")
    then changed (record c { cache = record c.cache { ttl = as_usize v } })
    else changed c

-- `object.value < 5`, of an `i32`.
abbrev pub below_five : ℕ → Bool
below_five v = ltb v 5 || leb (2 ^ 31) v

unfoldable pub change_int : Item ℕ → RfsConfig → Checked
change_int o c =
    if is o.env (text "CACHE")
    then change_cache o.id_rust o.value c
    else if is o.env (text "FS")
    then (if is o.id_rust (text "buffer_size")
        then (if below_five o.value
            then changed
                (record c { file_system = record c.file_system { buffer_size = as_usize o.value } })
            else refused (text "Buffer size must be smaller than 5 MB."))
        else changed c)
    else changed c

module _ (spelling : FilePath → Text) where
  -- What is shown after an edit that is accepted.
  abbrev pub shown : Window → RfsConfig → Window
  shown w c = load_config spelling c (record w { show_restore_default = true; is_loading = false })

  unfoldable pub on_change_string_property : Item Text → Gui → Gui
  on_change_string_property o g =
      let c = change_string o g.config in record g { config = c; window = shown g.window c }

  unfoldable pub on_change_bool_property : Item Bool → Gui → Gui
  on_change_bool_property o g =
      let c = change_bool o g.config in record g { config = c; window = shown g.window c }

  abbrev pub checked : Checked → Gui → Gui
  checked (changed c) g = record g { config = c; window = shown g.window c }
  checked (refused m) g = record g {
    window = record g.window { is_loading = false; error_message = m };
  }

  unfoldable pub on_change_int_property : Item ℕ → Gui → Gui
  on_change_int_property o g = checked (change_int o g.config) g

  -- The default configuration is shown; the one that is used stays.
  unfoldable pub on_restore_default : Gui → Gui
  on_restore_default g = record g {
    window =
        load_config spelling g.default_config
          (record g.window { is_loading = false; show_restore_default = false });
  }
