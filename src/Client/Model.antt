-- ===== src/Client/Model.antt =====
-- `FileSystem` of client/src/fs_model.rs: its state and the actions that its methods are made of.
-- Each method runs to its end before the next one; the waits inside it change nothing but the world.
pub mod Data
pub mod Names
pub mod Listing
pub mod Uploads
pub mod Session
pub mod Failures
pub mod Handles
pub mod ReadLength
use remote_file_system.Prelude.{
  ℕ, zero, suc, ◌/◌, Bool, Option, none, some, List, [], if◌then◌else◌,
}
use remote_file_system.Paths.{FilePath, path_is_utf8, text}
use remote_file_system.Client.Errors.{FsModelError}
use remote_file_system.Client.Action.{Action, ok, err, panicked, pure, raise}
use remote_file_system.Client.Network.{RemoteStorage, Reply, done, failed}
use remote_file_system.Client.Pages.{Limits}
use remote_file_system.Client.Items.{CacheItem}
use remote_file_system.Client.Cache
use remote_file_system.Client.Cache.{Cache, CacheConfig}
use remote_file_system.Client.ReadBuffer
use remote_file_system.Client.ReadBuffer.{ReadBuffer}
use remote_file_system.Client.WriteBuffer
use remote_file_system.Client.WriteBuffer.{WriteBuffer}

-- The state behind `self`, with the globals PAGE_SIZE and MAX_PAGES in `limits` and CURRENT_FH in
-- `current_fh`; `remote` is the state of the world behind `remote_client`.
pub record FileSystem (World : Type 0) : Type 0 where
  pub remote : World
  pub limits : Limits
  pub current_fh : ℕ
  pub xattributes_enabled : Bool
  pub file_handlers : List (ℕ × FilePath)
  pub read_buffer : ReadBuffer
  pub write_buffer : WriteBuffer
  pub cache : Option Cache

pub record FsConfig : Type 0 where
  pub xattr_enable : Bool
  pub page_size : ℕ
  pub max_pages : ℕ
  pub buffer_size : ℕ

-- A file system with its two buffers, where they can be made.
abbrev pub with_buffers :
    {World : Type 0}
    → Option ReadBuffer
    → Option WriteBuffer
    → (ReadBuffer → WriteBuffer → FileSystem World)
    → Option (FileSystem World)
with_buffers (some r) (some w) make = some (make r w)
with_buffers _ _ make = none

-- `FileSystem::new`, in a process that has opened no file yet; `none` is its panic: a division by
-- zero, or a buffer that is too large.
unfoldable pub new :
    {World : Type 0} → World → ℕ → FsConfig → CacheConfig → Option (FileSystem World)
new remote now config cache_config = elim config.page_size [
  | zero ↦ none
  | suc n ↦
      with_buffers (ReadBuffer.new now config.buffer_size) (WriteBuffer.new config.buffer_size)
        (λ reading writing. record {
          remote = remote;
          limits = record { page_size = suc n; max_pages = cache_config.max_size / suc n };
          current_fh = 1;
          xattributes_enabled = config.xattr_enable;
          file_handlers = [];
          read_buffer = reading;
          write_buffer = writing;
          cache = Cache.from_config cache_config;
        })
]

unfoldable pub path_to_string : {S : Type 0} → FilePath → Action S FilePath
path_to_string path =
    if path_is_utf8 path
    then pure path
    else raise (FsModelError.invalid_input (text "Path is not valid UTF-8"))

module _ (env : RemoteStorage) where
  abbrev pub State : Type 0
  State = FileSystem env.World

  -- `self.remote_client.…(…).await?`
  unfoldable pub ask : {A : Type 0} → (env.World → Reply A × env.World) → Action State A
  ask request s =
      let (r, w) = request s.remote in
      elim r [
        | done a ↦ (ok a, record s { remote = w })
        | failed e ↦ (err (FsModelError.server_error e), record s { remote = w })
      ]

  -- `if let Some(cache) = &self.cache && let Some(…) = cache.get(path).await`
  unfoldable pub cache_get : FilePath → Action State (Option CacheItem)
  cache_get path s = elim s.cache [
    | none ↦ (ok none, s)
    | some c ↦
        let (c', item) = Cache.get c (env.now s.remote) path in
        (ok item, record s { cache = some c' })
  ]

  -- `if let Some(cache) = &self.cache { … }` around a call that may panic.
  unfoldable pub cache_try : (Limits → Cache → ℕ → Option Cache) → Action State (Unit {0})
  cache_try change s = elim s.cache [
    | none ↦ (ok tt, s)
    | some c ↦ elim (change s.limits c (env.now s.remote)) [
      | none ↦ (panicked, s)
      | some c' ↦ (ok tt, record s { cache = some c' })
    ]
  ]

  -- The same around a call that does not.
  unfoldable pub cache_do : (Cache → ℕ → Cache) → Action State (Unit {0})
  cache_do change = cache_try (λ _ c now. some (change c now))

  -- `cache.remove(path).await`
  unfoldable pub cache_remove : FilePath → Action State (Option CacheItem)
  cache_remove path s = elim s.cache [
    | none ↦ (ok none, s)
    | some c ↦ let (c', item) = Cache.remove c path in (ok item, record s { cache = some c' })
  ]
