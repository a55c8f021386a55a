-- ===== src/Client/Config.antt =====
-- The configuration of the client: client/src/config.rs with config/mount.rs, config/file_system.rs and
-- config/cache.rs. The merging of the sources, which the crate `config` does, is an argument.
pub mod Logging
pub mod Loading
use remote_file_system.Prelude.{ℕ, ◌*◌, Bool, true, false, ◌||◌, Option, none, some, List, []}
use remote_file_system.Paths.{Text, text, FilePath, parse}
use remote_file_system.Client.Cache.{CacheConfig, lru}
use remote_file_system.Client.Model.{FsConfig}
use remote_file_system.Client.Config.Logging.{LoggingConfig, default_logging}
use remote_file_system.Client.Config.Logging

pub record MountConfig : Type 0 where
  pub allow_other : Bool
  pub read_only : Bool
  pub privileged : Bool

pub record RfsConfig : Type 0 where
  pub mount_point : FilePath
  pub server_url : Text
  pub username : Option Text
  pub foreground : Bool
  pub gui_enabled : Bool
  pub mount : MountConfig
  pub file_system : FsConfig
  pub cache : CacheConfig
  pub logging : LoggingConfig

-- `CacheConfig::default`
abbrev pub default_cache : CacheConfig
default_cache = record {
  enabled = true;
  capacity = 50;
  ttl = 10;
  use_ttl = true;
  policy = lru;
  max_size = 100 * 1024 * 1024;
}

-- `FsConfig::default`
abbrev pub default_file_system : FsConfig
default_file_system = record {
  xattr_enable = false;
  page_size = 4096;
  max_pages = 256;
  buffer_size = 2 * 1024 * 1024;
}

-- `RfsConfig::default`
unfoldable pub default_config : RfsConfig
default_config = record {
  mount_point = parse (text "/mnt/remote-fs");
  server_url = text "http://localhost:8080";
  username = none;
  foreground = false;
  gui_enabled = true;
  mount = record { allow_other = false; read_only = false; privileged = false };
  file_system = default_file_system;
  cache = default_cache;
  logging = default_logging;
}

-- `finalize` of `RfsConfig`, on Windows or not.
unfoldable pub finalize : Bool → RfsConfig → RfsConfig
finalize windows c = record c {
  logging = Logging.finalize c.logging;
  foreground = windows || (c.gui_enabled || c.foreground);
}

-- `ConfigError`, with the text of its message.
pub data ConfigError : Type 0 where
  invalid_config : Text → ConfigError
  other : Text → ConfigError

-- What the crate `config` makes of the sources.
pub data Merged : Type 0 where
  build_failed : Text → Merged
  not_a_config : Text → Merged
  merged : RfsConfig → Merged

pub data LoadResult : Type 0 where
  loaded : RfsConfig → LoadResult
  refused : ConfigError → LoadResult

-- `RfsConfig::load`: no module has a `validate` of its own, so that no value is refused.
unfoldable pub load : Bool → Merged → LoadResult
load windows (build_failed m) = refused (other m)
load windows (not_a_config m) = refused (invalid_config m)
load windows (merged c) = loaded (finalize windows c)
