-- ===== src/Client/Cache.antt =====
-- The client's cache of file system items: client/src/cache.rs. Instants and durations are in
-- milliseconds; the readings of `Instant::now` within one operation are one argument, `now`.
-- `none` is a panic.
pub mod Victim
pub mod Bounds
pub mod Lookup
use remote_file_system.Prelude.{
  ℕ, zero, suc, ◌+◌, ◌*◌, Bool, not, ◌&&◌, ◌||◌, Option, none, some, List, [], ◌∷◌, length, ltb,
  leb, false, if◌then◌else◌,
}
use remote_file_system.Prelude.Assoc.{lookup, insert, remove as remove_key}
use remote_file_system.Paths.{Text, FilePath, FilePath-discrete, parent, file_name}
use remote_file_system.Client.Attributes.{Attributes, FileType}
use remote_file_system.Client.Pages
use remote_file_system.Client.Pages.{Limits, File, write_content}
use remote_file_system.Client.Items.{
  CacheItem, file, sym_link, directory, invalidate_attributes, update_item,
}
use mathlib.Core.Option

pub record CacheEntry : Type 0 where
  pub item : CacheItem
  pub created_at : ℕ
  pub last_accessed : ℕ
  pub access_count : ℕ

unfoldable pub new_entry : ℕ → CacheItem → CacheEntry
new_entry now item = record { item = item; created_at = now; last_accessed = now; access_count = 0 }

pub data CachePolicy : Type 0 where
  lru lfu : CachePolicy

abbrev pub Entries : Type 0
Entries = List (FilePath × CacheEntry)

pub record Cache : Type 0 where
  pub entries : Entries
  pub capacity : ℕ
  pub ttl : ℕ
  pub use_ttl : Bool
  pub policy : CachePolicy
  pub max_size : ℕ

pub record CacheConfig : Type 0 where
  pub enabled : Bool
  pub capacity : ℕ
  pub ttl : ℕ
  pub use_ttl : Bool
  pub policy : CachePolicy
  pub max_size : ℕ

unfoldable pub from_config : CacheConfig → Option Cache
from_config cfg =
    if cfg.enabled
    then some (record {
      entries = [];
      capacity = cfg.capacity;
      ttl = cfg.ttl * 1000;
      use_ttl = cfg.use_ttl;
      policy = cfg.policy;
      max_size = cfg.max_size;
    })
    else none

-- The loop of `parent_paths`; a path has fewer parents than components.
unfoldable pub parents_from : ℕ → FilePath → List FilePath
parents_from zero p = []
parents_from (suc fuel) p = elim (parent p) [ none ↦ [] | some q ↦ q ∷ parents_from fuel q ]

unfoldable pub parent_paths : FilePath → List FilePath
parent_paths p = parents_from (length p) p

-- `map.remove` of each path of a list.
unfoldable pub remove_all : List FilePath → Entries → Entries
remove_all [] m = m
remove_all (p ∷ ps) m = remove_all ps (remove_key FilePath-discrete p m)

unfoldable pub invalidate_parents : Cache → FilePath → Cache
invalidate_parents c path = record c { entries = remove_all (parent_paths path) c.entries }

abbrev pub is_fresh : Cache → CacheEntry → ℕ → Bool
is_fresh c e now = not c.use_ttl || leb now (e.created_at + c.ttl)

-- The cache after the call, and the item found.
unfoldable pub get : Cache → ℕ → FilePath → Cache × Option CacheItem
get c now path = elim (lookup FilePath-discrete path c.entries) [
  | none ↦ (c, none)
  | some e ↦
      if c.use_ttl && ltb (e.created_at + c.ttl) now
      then (record c { entries = remove_key FilePath-discrete path c.entries }, none)
      else (
        record c {
          entries =
              insert FilePath-discrete path
                (record e { last_accessed = now; access_count = e.access_count + 1 }) c.entries;
        },
        some e.item,
      )
]

-- `min_by_key`: the first of the least elements.
unfoldable pub min_from : (CacheEntry → ℕ) → FilePath × CacheEntry → Entries → FilePath × CacheEntry
min_from key best [] = best
min_from key best (e ∷ m) = min_from key (if ltb (key e.1) (key best.1) then e else best) m

unfoldable pub min_by_key : (CacheEntry → ℕ) → Entries → Option (FilePath × CacheEntry)
min_by_key key [] = none
min_by_key key (e ∷ m) = some (min_from key e m)

abbrev pub policy_key : CachePolicy → CacheEntry → ℕ
policy_key lru e = e.last_accessed
policy_key lfu e = e.access_count

unfoldable pub select_victim : Cache → Entries → Option FilePath
select_victim c m = Option.map (λ e. e.0) (min_by_key (policy_key c.policy) m)

-- Room for one more entry: where the map is full, the victim goes.
unfoldable pub make_room : Cache → Entries → Entries
make_room c m =
    if leb c.capacity (length m)
    then elim (select_victim c m) [ none ↦ m | some victim ↦ remove_key FilePath-discrete victim m ]
    else m

-- The last part of `put` and of `put_new`.
unfoldable pub insert_new : Cache → ℕ → FilePath → CacheItem → Entries → Cache
insert_new c now path item m = record c {
  entries = insert FilePath-discrete path (new_entry now item) (make_room c m);
}

-- The branch of `put` on an entry that is still valid.
unfoldable pub refresh :
    Limits → Cache → ℕ → FilePath → CacheItem → Bool → CacheEntry → Option Cache
refresh l c now path item invalidate e = elim (update_item l e.item item) [
  | none ↦ none
  | some updated ↦ some (record c {
    entries =
        insert FilePath-discrete path
          (record e {
            item = if invalidate then invalidate_attributes updated else updated;
            last_accessed = now;
            access_count = e.access_count + 1;
          })
          c.entries;
  })
]

unfoldable pub put : Limits → Cache → ℕ → FilePath → CacheItem → Bool → Option Cache
put l c now path item invalidate = elim (lookup FilePath-discrete path c.entries) [
  | none ↦ some (insert_new c now path item c.entries)
  | some e ↦
      if is_fresh c e now
      then refresh l c now path item invalidate e
      else some (insert_new c now path item (remove_key FilePath-discrete path c.entries))
]

unfoldable pub put_new : Cache → ℕ → FilePath → CacheItem → Cache
put_new c now path item =
    let c' = invalidate_parents c path in insert_new c' now path item c'.entries

unfoldable pub remove : Cache → FilePath → Cache × Option CacheItem
remove c path = (
  invalidate_parents (record c { entries = remove_key FilePath-discrete path c.entries }) path,
  Option.map (λ e. e.item) (lookup FilePath-discrete path c.entries),
)

unfoldable pub invalidate : Cache → FilePath → Cache
invalidate c path = record c { entries = remove_key FilePath-discrete path c.entries }

unfoldable pub cache_write_file : Limits → Cache → ℕ → FilePath → ℕ → List ℕ → Bool → Option Cache
cache_write_file l c now path offset bytes invalidate = elim (file_name path) [
  | none ↦ some c
  | some name ↦ elim (write_content l (Pages.new name none) offset bytes) [
    | none ↦ none
    | some f ↦ put l c now path (file f) invalidate
  ]
]

-- The item that `cache_put_attr` stores.
unfoldable pub item_of_attributes : Text → Attributes → CacheItem
item_of_attributes name attributes = elim attributes.kind [
  | FileType.directory ↦
      directory (record { name = name; attributes = some attributes; children = none })
  | FileType.symlink ↦
      sym_link (record { name = name; attributes = some attributes; target = none })
  | _ ↦ file (Pages.new name (some attributes))
]

unfoldable pub cache_put_attr : Limits → Cache → ℕ → FilePath → Attributes → Option Cache
cache_put_attr l c now path attributes = elim (file_name path) [
  | none ↦ some c
  | some name ↦ put l c now path (item_of_attributes name attributes) false
]
