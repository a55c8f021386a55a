-- ===== src/Client/Cache/Lookup.antt =====
-- What the cache of client/src/cache.rs serves after a change.
use remote_file_system.Prelude.{
  ℕ, zero, suc, ◌+◌, ◌≤◌, ◌<◌, ◌≡◌, ◌≢◌, refl, sym, ◌∙◌, Bool, true, false, ◌&&◌, ◌||◌, Option,
  none, some, List, [], ◌∷◌, length, ltb, arith, Option-cases, inl, inr, if◌then◌else◌,
}
use remote_file_system.Prelude.Assoc.{lookup, lookup-insert, lookup-remove, remove as remove_key}
use remote_file_system.Paths.{
  FilePath, same_path, FilePath-discrete, parent, root_dir, cur_dir, parent_dir, normal,
}
use remote_file_system.Client.Items.{CacheItem}
use remote_file_system.Client.Cache
use remote_file_system.Client.Cache.{
  Cache, CacheEntry, Entries, put_new, remove_all, parents_from, parent_paths, invalidate_parents,
  is_fresh, insert_new, make_room, new_entry,
}
use mathlib.Core.Logic.{if_pos, if_neg}
use mathlib.Core.Option
use mathlib.Core.Path.{ap}

-- `q` lies above `p`.
pub data Ancestor : FilePath → FilePath → Type 0 where
  direct : {p q : FilePath} → parent p ≡ some q → Ancestor q p
  above : {p q r : FilePath} → parent p ≡ some r → Ancestor q r → Ancestor q p

abbrev pub is_among : FilePath → List FilePath → Bool
is_among q [] = false
is_among q (p ∷ ps) = same_path p q || is_among q ps

length-parent : (p : FilePath) {q : FilePath} → parent p ≡ some q → length q < length p
length-parent [] h = ground arith
length-parent (root_dir ∷ []) h = ground arith
length-parent (cur_dir ∷ []) h = ground arith
length-parent (parent_dir ∷ []) h = ground arith
length-parent (normal t ∷ []) h = ground arith
length-parent (c ∷ d ∷ p) h = elim (Option-cases (parent (d ∷ p))) [
  | inl e ↦ ground (arith, e)
  | inr (r, e) ↦ ground (arith, e, length-parent (d ∷ p) e)
]

-- More fuel than components changes nothing.
parents_from-fuel :
    (fuel more : ℕ) (p : FilePath)
    → length p ≤ fuel
    → length p ≤ more
    → parents_from fuel p ≡ parents_from more p
unfolding parents_from
parents_from-fuel zero zero p h k = refl
parents_from-fuel zero (suc more) [] h k = refl
parents_from-fuel zero (suc more) (c ∷ p) h k = absurd (omega arith)
parents_from-fuel (suc fuel) zero [] h k = refl
parents_from-fuel (suc fuel) zero (c ∷ p) h k = absurd (omega arith)
parents_from-fuel (suc fuel) (suc more) p h k = elim (Option-cases (parent p)) [
  | inl e ↦ ground (arith, e)
  | inr (q, e) ↦
      let shorter = length-parent p e in
      ground (arith, e, parents_from-fuel fuel more q (omega arith) (omega arith))
]

pub parent_paths-some : (p q : FilePath) → parent p ≡ some q → parent_paths p ≡ q ∷ parent_paths q
unfolding parent_paths parents_from
parent_paths-some [] q h = ground arith
parent_paths-some (c ∷ p) q h =
    let shorter = length-parent (c ∷ p) h in
    ground (arith, parents_from-fuel (length p) (length q) q (omega arith) (omega arith))

-- `parent_paths` lists every ancestor.
pub Ancestor-parent_paths : {q p : FilePath} → Ancestor q p → is_among q (parent_paths p) ≡ true
Ancestor-parent_paths (direct {p = p} {q = q} h) = rw (parent_paths-some p q h) (ground arith)
Ancestor-parent_paths (above {p = p} {r = r} h a) =
    rw (parent_paths-some p r h) (ground (arith, Ancestor-parent_paths a))

lookup-remove_all :
    (ps : List FilePath) (q : FilePath) (m : Entries)
    → lookup FilePath-discrete q (remove_all ps m)
      ≡ (if is_among q ps then none else lookup FilePath-discrete q m)
unfolding remove_all
lookup-remove_all [] q m = refl
lookup-remove_all (p ∷ ps) q m = ground (
  arith,
  lookup-remove_all ps q (remove_key FilePath-discrete p m),
  lookup-remove FilePath-discrete p q m,
)

-- What a lookup of the cache finds, as the map has it and the time to live allows.
abbrev pub servable : Cache → ℕ → Option CacheEntry → Option CacheItem
servable c now none = none
servable c now (some e) = if is_fresh c e now then some e.item else none

get-found :
    (c : Cache) (now : ℕ) (path : FilePath)
    → (Cache.get c now path).1 ≡ servable c now (lookup FilePath-discrete path c.entries)
unfolding Cache.get
get-found c now path = ground arith

-- `get` serves the item of the path exactly while its time to live has not passed, whatever else is
-- cached, and it leaves what is cached of another path as it was.
pub get-servable :
    (c : Cache) (now : ℕ) (path q : FilePath)
    → q ≢ path
    → ((Cache.get c now path).1 ≡ servable c now (lookup FilePath-discrete path c.entries))
      × (lookup FilePath-discrete q (Cache.get c now path).0.entries
          ≡ lookup FilePath-discrete q c.entries)
unfolding Cache.get
get-servable c now path q ne = (
  get-found c now path,
  elim (Option-cases (lookup FilePath-discrete path c.entries)) [
    | inl e ↦ rw (e, Cache.get)
    | inr (x, e) ↦
        let other : ¬ (path ≡ q) = λ same. ne (sym same) in
        ground (
          arith,
          e,
          lookup-remove FilePath-discrete path q c.entries,
          lookup-insert FilePath-discrete path q
              (record x { last_accessed = now; access_count = x.access_count + 1 }) c.entries,
        )
  ],
)

lookup-insert_new_self :
    (c : Cache) (now : ℕ) (path : FilePath) (item : CacheItem) (m : Entries)
    → lookup FilePath-discrete path (insert_new c now path item m).entries
      ≡ some (new_entry now item)
unfolding insert_new
lookup-insert_new_self c now path item m =
    lookup-insert FilePath-discrete path path (new_entry now item) (make_room c m)
    ∙ if_pos (FilePath-discrete path path) refl _ _

-- Eviction only forgets.
lookup-make_room :
    (c : Cache) (q : FilePath) (m : Entries)
    → lookup FilePath-discrete q m ≡ none
    → lookup FilePath-discrete q (make_room c m) ≡ none
unfolding make_room
lookup-make_room c q m h = elim (Option-cases (Cache.select_victim c m)) [
  | inl e ↦ ground (arith, e)
  | inr (v, e) ↦ ground (arith, e, lookup-remove FilePath-discrete v q m)
]

-- After `put_new` the new item is served until its time to live has passed.
pub get-put_new :
    (c : Cache) (now : ℕ) (path : FilePath) (item : CacheItem) (later : ℕ)
    → (Cache.get (put_new c now path item) later path).1
      ≡ (if c.use_ttl && ltb (now + c.ttl) later then none else some item)
unfolding put_new new_entry insert_new invalidate_parents
get-put_new c now path item later =
    let c' = invalidate_parents c path in
    get-found (put_new c now path item) later path
    ∙ rw (lookup-insert_new_self c' now path item c'.entries) (ground arith)

-- An ancestor of a path is another path.
Ancestor-lt : {q p : FilePath} → Ancestor q p → length q < length p
Ancestor-lt (direct {p = p} h) = length-parent p h
Ancestor-lt (above {p = p} h a) = omega (arith, length-parent p h, Ancestor-lt a)

-- After `put_new` of a path the cache serves no ancestor of it, at any time.
pub get-put_new-Ancestor :
    (c : Cache) (now : ℕ) (path : FilePath) (item : CacheItem) (later : ℕ) (q : FilePath)
    → Ancestor q path
    → (Cache.get (put_new c now path item) later q).1 ≡ none
unfolding put_new insert_new invalidate_parents
get-put_new-Ancestor c now path item later q a =
    let gone : lookup FilePath-discrete q (remove_all (parent_paths path) c.entries) ≡ none =
      ground (arith, lookup-remove_all (parent_paths path) q c.entries, Ancestor-parent_paths a) in
    let other : ¬ (path ≡ q) =
      λ same. (let lt = Ancestor-lt a in absurd (omega (arith, ap length same))) in
    get-found (put_new c now path item) later q
    ∙ rw (
      lookup-insert FilePath-discrete path q (new_entry now item) (make_room c' c'.entries),
      if_neg (FilePath-discrete path q) other,
      lookup-make_room c' q c'.entries gone,
    )
  where
    c' : Cache
    c' = invalidate_parents c path

-- After `remove` of a path the cache serves neither the path nor an ancestor of it, and what it had
-- of the path is the result.
pub get-remove :
    (c : Cache) (path : FilePath) (later : ℕ) (q : FilePath)
    → Ancestor q path
    → ((Cache.get (Cache.remove c path).0 later path).1 ≡ none)
      × ((Cache.get (Cache.remove c path).0 later q).1 ≡ none)
      × ((Cache.remove c path).1
          ≡ Option.map (λ e. e.item) (lookup FilePath-discrete path c.entries))
unfolding Cache.remove invalidate_parents
get-remove c path later q a = (
  served path (
      ground (
        arith,
        lookup-remove_all (parent_paths path) path rest,
        lookup-remove FilePath-discrete path path c.entries,
      )),
  served q (ground (arith, lookup-remove_all (parent_paths path) q rest, Ancestor-parent_paths a)),
  refl,
)
  where
    rest : Entries
    rest = remove_key FilePath-discrete path c.entries

    served :
        (p : FilePath)
        → lookup FilePath-discrete p (remove_all (parent_paths path) rest) ≡ none
        → (Cache.get (Cache.remove c path).0 later p).1 ≡ none
    served p gone = get-found (Cache.remove c path).0 later p ∙ rw gone
