-- ===== src/Client/Cache/Bounds.antt =====
-- The cache of client/src/cache.rs never holds more entries than its capacity allows.
use remote_file_system.Prelude.{
  ℕ, ◌+◌, ◌≤◌, false, max, ◌≡◌, Bool, Option, none, some, List, [], ◌∷◌, length, arith,
  Option-cases, Bool-cases, inl, inr,
}
use remote_file_system.Prelude.Assoc.{
  lookup, length-insert, length-insert_known, length-remove, remove as remove_key,
}
use remote_file_system.Paths.{FilePath, FilePath-discrete, file_name}
use remote_file_system.Client.Attributes.{Attributes}
use remote_file_system.Client.Pages.{Limits, write_content}
use remote_file_system.Client.Pages
use remote_file_system.Client.Items.{CacheItem, file, update_item}
use remote_file_system.Client.Cache
use remote_file_system.Client.Cache.{
  Cache, CacheEntry, CacheConfig, Entries, from_config, refresh, item_of_attributes, insert_new,
  make_room, invalidate_parents, remove_all, parent_paths, cache_write_file, cache_put_attr,
  is_fresh, new_entry,
}
use remote_file_system.Client.Cache.Victim.{make_room_lem}

-- A capacity of zero still leaves room for one entry: `put` inserts whatever it evicted.
pub record IsBounded (c : Cache) : Type 0 where
  pub count : length c.entries ≤ max c.capacity 1

length-remove_all : (ps : List FilePath) (m : Entries) → length (remove_all ps m) ≤ length m
unfolding remove_all
length-remove_all [] m = omega arith
length-remove_all (p ∷ ps) m = omega (
  arith,
  length-remove_all ps (remove_key FilePath-discrete p m),
  length-remove FilePath-discrete p m,
)

get-IsBounded :
    (c : Cache) (now : ℕ) (path : FilePath) → IsBounded c → IsBounded (Cache.get c now path).0
unfolding Cache.get
get-IsBounded c now path b = elim (Option-cases (lookup FilePath-discrete path c.entries)) [
  | inl e ↦ rw (e, Cache.get) b
  | inr (x, e) ↦
      rw (e, Cache.get)
        (ground (
          arith,
          length-remove FilePath-discrete path c.entries,
          length-insert_known FilePath-discrete path
              (record x { last_accessed = now; access_count = x.access_count + 1 }) x c.entries e,
        ))
]

insert_new-IsBounded :
    (c : Cache) (now : ℕ) (path : FilePath) (item : CacheItem) (m : Entries)
    → length m ≤ max c.capacity 1
    → IsBounded (insert_new c now path item m)
unfolding insert_new
insert_new-IsBounded c now path item m h = record {
  count = omega (
    arith,
    length-insert FilePath-discrete path (new_entry now item) (make_room c m),
    make_room_lem c m h,
  );
}

-- What a call that may panic leaves.
abbrev pub After : Option Cache → (Cache → Type 0) → Type 0
After none P = Unit {0}
After (some c) P = P c

refresh-IsBounded :
    (l : Limits) (c : Cache) (now : ℕ) (path : FilePath) (item : CacheItem) (invalid : Bool)
    (e : CacheEntry)
    → lookup FilePath-discrete path c.entries ≡ some e
    → IsBounded c
    → After (refresh l c now path item invalid e) IsBounded
unfolding refresh
refresh-IsBounded l c now path item invalid e known b =
    elim (Option-cases (update_item l e.item item)) [
      | inl p ↦ rw (p, refresh) tt
      | inr (u, p) ↦
          rw (p, refresh)
            (record {
              count =
                  omega (
                    arith,
                    b.count,
                    length-insert_known FilePath-discrete path _ e c.entries known,
                  );
            })
    ]

put-IsBounded :
    (l : Limits) (c : Cache) (now : ℕ) (path : FilePath) (item : CacheItem) (invalid : Bool)
    → IsBounded c
    → After (Cache.put l c now path item invalid) IsBounded
unfolding Cache.put
put-IsBounded l c now path item invalid b =
    elim (Option-cases (lookup FilePath-discrete path c.entries)) [
      | inl p ↦ rw (p, Cache.put) (insert_new-IsBounded c now path item c.entries b.count)
      | inr (e, p) ↦ elim (Bool-cases (is_fresh c e now)) [
        | inl fresh ↦ rw (p, Cache.put, fresh) (refresh-IsBounded l c now path item invalid e p b)
        | inr stale ↦
            rw (p, Cache.put, stale)
              (insert_new-IsBounded c now path item (remove_key FilePath-discrete path c.entries)
                (omega (arith, b.count, length-remove FilePath-discrete path c.entries)))
      ]
    ]

put_new-IsBounded :
    (c : Cache) (now : ℕ) (path : FilePath) (item : CacheItem)
    → IsBounded c
    → IsBounded (Cache.put_new c now path item)
unfolding Cache.put_new invalidate_parents
put_new-IsBounded c now path item b =
    insert_new-IsBounded (invalidate_parents c path) now path item
      (invalidate_parents c path).entries
      (omega (arith, b.count, length-remove_all (parent_paths path) c.entries))

remove-IsBounded : (c : Cache) (path : FilePath) → IsBounded c → IsBounded (Cache.remove c path).0
unfolding Cache.remove invalidate_parents
remove-IsBounded c path b = record {
  count = omega (
    arith,
    b.count,
    length-remove_all (parent_paths path) (remove_key FilePath-discrete path c.entries),
    length-remove FilePath-discrete path c.entries,
  );
}

cache_write_file-IsBounded :
    (l : Limits) (c : Cache) (now : ℕ) (path : FilePath) (offset : ℕ) (bytes : List ℕ)
    (invalid : Bool)
    → IsBounded c
    → After (cache_write_file l c now path offset bytes invalid) IsBounded
unfolding cache_write_file
cache_write_file-IsBounded l c now path offset bytes invalid b =
    elim (Option-cases (file_name path)) [
      | inl p ↦ rw (p, cache_write_file) b
      | inr (name, p) ↦ elim (Option-cases (write_content l (Pages.new name none) offset bytes)) [
        | inl q ↦ rw (p, cache_write_file, q) tt
        | inr (f, q) ↦ rw (p, cache_write_file, q) (put-IsBounded l c now path (file f) invalid b)
      ]
    ]

cache_put_attr-IsBounded :
    (l : Limits) (c : Cache) (now : ℕ) (path : FilePath) (attributes : Attributes)
    → IsBounded c
    → After (cache_put_attr l c now path attributes) IsBounded
unfolding cache_put_attr
cache_put_attr-IsBounded l c now path attributes b = elim (Option-cases (file_name path)) [
  | inl p ↦ rw (p, cache_put_attr) b
  | inr (name, p) ↦
      rw (p, cache_put_attr)
        (put-IsBounded l c now path (item_of_attributes name attributes) false b)
]

-- What the file system model asks of its cache.
pub data Call : Type 0 where
  get : FilePath → Call
  put : FilePath → CacheItem → Bool → Call
  put_new : FilePath → CacheItem → Call
  remove : FilePath → Call
  invalidate : FilePath → Call
  write_file : FilePath → ℕ → List ℕ → Bool → Call
  put_attr : FilePath → Attributes → Call

pub perform : Limits → Cache → ℕ → Call → Option Cache
perform l c now (get p) = some (Cache.get c now p).0
perform l c now (put p item invalid) = Cache.put l c now p item invalid
perform l c now (put_new p item) = some (Cache.put_new c now p item)
perform l c now (remove p) = some (Cache.remove c p).0
perform l c now (invalidate p) = some (Cache.invalidate c p)
perform l c now (write_file p offset bytes invalid) =
    cache_write_file l c now p offset bytes invalid
perform l c now (put_attr p attributes) = cache_put_attr l c now p attributes

-- A sequence of calls, each at its time.
pub run : Limits → Cache → List (ℕ × Call) → Option Cache
run l c [] = some c
run l c ((now, call) ∷ calls) = elim (perform l c now call) [
  | none ↦ none
  | some c' ↦ run l c' calls
]

perform-IsBounded :
    (l : Limits) (c : Cache) (now : ℕ) (call : Call)
    → IsBounded c
    → After (perform l c now call) IsBounded
unfolding perform Cache.invalidate
perform-IsBounded l c now (get p) b = get-IsBounded c now p b
perform-IsBounded l c now (put p item invalid) b = put-IsBounded l c now p item invalid b
perform-IsBounded l c now (put_new p item) b = put_new-IsBounded c now p item b
perform-IsBounded l c now (remove p) b = remove-IsBounded c p b
perform-IsBounded l c now (invalidate p) b = record {
  count = omega (arith, b.count, length-remove FilePath-discrete p c.entries);
}
perform-IsBounded l c now (write_file p offset bytes invalid) b =
    cache_write_file-IsBounded l c now p offset bytes invalid b
perform-IsBounded l c now (put_attr p attributes) b =
    cache_put_attr-IsBounded l c now p attributes b

run-IsBounded :
    (l : Limits) (c : Cache) (calls : List (ℕ × Call))
    → IsBounded c
    → After (run l c calls) IsBounded
unfolding run
run-IsBounded l c [] b = b
run-IsBounded l c ((now, call) ∷ calls) b = elim (Option-cases (perform l c now call)) [
  | inl p ↦ rw (p, run) tt
  | inr (c', p) ↦
      rw (p, run) (run-IsBounded l c' calls (rw p at (perform-IsBounded l c now call b)))
]

-- Whatever calls are made of a cache that `from_config` gave, and whenever, it never holds more
-- entries than its capacity, and never more than one where the capacity is zero.
pub run-IsBounded-from_config :
    (l : Limits) (cfg : CacheConfig) (c : Cache) (calls : List (ℕ × Call))
    → from_config cfg ≡ some c
    → After (run l c calls) IsBounded
unfolding from_config
run-IsBounded-from_config l cfg c calls made =
    run-IsBounded l c calls (record { count = ground arith })
