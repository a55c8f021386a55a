-- ===== src/Examples/Cache.antt =====
-- The cache of client/src/cache.rs on small inputs.
use remote_file_system.Prelude.{ℕ, ◌≡◌, refl, true, ◌∷◌, [], none, List}
use remote_file_system.Paths.{FilePath, normal, root_dir, root}
use remote_file_system.Client.Items.{CacheItem, directory}
use remote_file_system.Client.Cache
use remote_file_system.Client.Cache.{Cache, CacheEntry, CacheConfig, lru}
use remote_file_system.Client.Cache.Bounds
use remote_file_system.Client.Cache.Bounds.{Call, IsBounded, After}
use remote_file_system.Client.Cache.Lookup
use remote_file_system.Client.Cache.Lookup.{servable, direct, Ancestor}
use remote_file_system.Client.Pages.{Limits}

abbrev limits : Limits
limits = record { page_size = 4; max_pages = 3 }

abbrev settings : CacheConfig
settings = record {
  enabled = true;
  capacity = 2;
  ttl = 1;
  use_ttl = true;
  policy = lru;
  max_size = 12;
}

abbrev docs : FilePath
docs = root_dir ∷ normal (100 ∷ []) ∷ []

abbrev folder : CacheItem
folder = directory (record { name = 100 ∷ []; attributes = none; children = none })

abbrev entry : CacheEntry
entry = record { item = folder; created_at = 5; last_accessed = 7; access_count = 1 }

abbrev holding : Cache
holding = record {
  entries = (root, entry) ∷ (docs, entry) ∷ [];
  capacity = 2;
  ttl = 1000;
  use_ttl = true;
  policy = lru;
  max_size = 12;
}

abbrev calls : List (ℕ × Call)
calls = (1, Call.put_new docs folder) ∷ (2, Call.get docs) ∷ (3, Call.remove docs) ∷ []

run-IsBounded-from_config_example :
    After (Bounds.run limits (record holding { entries = [] }) calls) IsBounded
unfolding Cache.from_config
run-IsBounded-from_config_example =
    Bounds.run-IsBounded-from_config limits settings (record holding { entries = [] }) calls refl

get-put_new-Ancestor_example : (Cache.get (Cache.put_new holding 10 docs folder) 20 root).1 ≡ none
get-put_new-Ancestor_example =
    Lookup.get-put_new-Ancestor holding 10 docs folder 20 root (direct refl)
