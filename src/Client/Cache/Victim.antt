-- ===== src/Client/Cache/Victim.antt =====
-- `Cache::select_victim` of client/src/cache.rs.
use remote_file_system.Prelude.{
  ℕ, suc, ◌≤◌, ◌≡◌, refl, sym, max, true, false, ◌∙◌, some, [], ◌∷◌, length, ltb, if◌then◌else◌,
  arith, Bool-cases, inl, inr,
}
use remote_file_system.Prelude.Assoc.{lookup, length-remove_known, All}
use remote_file_system.Paths.{FilePath, FilePath-discrete}
use remote_file_system.Client.Cache.{
  Cache, CacheEntry, Entries, min_from, min_by_key, policy_key, select_victim, make_room,
}
use mathlib.Core.Logic.{if_pos, if_neg}
use mathlib.Core.Path.{subst}
use native.Mathlib.Nat.{le_refl}

-- A key that is found stays known when entries are put in front of the map.
abbrev pub Known : FilePath → Entries → Type 0
Known p m = (e : CacheEntry) × (lookup FilePath-discrete p m ≡ some e)

Known-cons : (p : FilePath) (b : FilePath × CacheEntry) (m : Entries) → Known p m → Known p (b ∷ m)
Known-cons p b m (e, found) = elim (FilePath-discrete b.0 p) [
  | yes h ↦ (b.1, if_pos (FilePath-discrete b.0 p) h _ _)
  | no h ↦ (e, if_neg (FilePath-discrete b.0 p) h _ _ ∙ found)
]

Known-cons_second :
    (p : FilePath) (b e : FilePath × CacheEntry) (m : Entries)
    → Known p (b ∷ m)
    → Known p (b ∷ e ∷ m)
Known-cons_second p b e m (x, found) = elim (FilePath-discrete b.0 p) [
  | yes h ↦ (b.1, if_pos (FilePath-discrete b.0 p) h _ _)
  | no h ↦
      let (y, there) = Known-cons p e m (x, sym (if_neg (FilePath-discrete b.0 p) h _ _) ∙ found) in
      (y, if_neg (FilePath-discrete b.0 p) h _ _ ∙ there)
]

-- The chosen entry is one of the map's.
min_from-Known :
    (key : CacheEntry → ℕ) (best : FilePath × CacheEntry) (m : Entries)
    → Known (min_from key best m).0 (best ∷ m)
unfolding min_from
min_from-Known key best [] = (best.1, if_pos (FilePath-discrete best.0 best.0) refl _ _)
min_from-Known key best (e ∷ m) =
    elim (ltb (key e.1) (key best.1))
      as (λ t. Known (min_from key (if t then e else best) m).0 (best ∷ e ∷ m)) [
        | true ↦ Known-cons _ best (e ∷ m) (min_from-Known key e m)
        | false ↦ Known-cons_second _ best e m (min_from-Known key best m)
      ]

-- What is no larger than a chosen entry is no larger than any of the map's.
min_from-le :
    (key : CacheEntry → ℕ) (best : FilePath × CacheEntry) (m : Entries) (n : ℕ)
    → n ≤ key (min_from key best m).1
    → (n ≤ key best.1) × All (λ e. n ≤ key e) m
unfolding min_from
min_from-le key best [] n h = (h, tt)
min_from-le key best (e ∷ m) n h = elim (Bool-cases (ltb (key e.1) (key best.1))) [
  | inl less ↦
      let (start, rest) =
        min_from-le key e m n
          (subst (λ t. n ≤ key (min_from key (if t then e else best) m).1) less h) in
      (ground (arith, less, start), (start, rest))
  | inr more ↦
      let (start, rest) =
        min_from-le key best m n
          (subst (λ t. n ≤ key (min_from key (if t then e else best) m).1) more h) in
      (start, (ground (arith, more, start), rest))
]

-- A map with entries has a victim, which is in it; by the policy of the cache it is an entry that was
-- used last the longest ago, or the least often, of all.
pub select_victim_least :
    (c : Cache) (first : FilePath × CacheEntry) (rest : Entries)
    → (victim : FilePath × CacheEntry) × (select_victim c (first ∷ rest) ≡ some victim.0)
      × Known victim.0 (first ∷ rest)
      × All (λ e. policy_key c.policy victim.1 ≤ policy_key c.policy e) (first ∷ rest)
unfolding select_victim min_by_key
select_victim_least c first rest =
    let key = policy_key c.policy in
    (
      min_from key first rest,
      refl,
      min_from-Known key first rest,
      min_from-le key first rest (key (min_from key first rest).1) (le_refl _),
    )

-- After making room there is room, unless the capacity is zero.
pub make_room_lem :
    (c : Cache) (m : Entries)
    → length m ≤ max c.capacity 1
    → suc (length (make_room c m)) ≤ max c.capacity 1
unfolding make_room
make_room_lem c [] h = ground arith
make_room_lem c (first ∷ rest) h =
    let (victim, chosen, (e, known), _) = select_victim_least c first rest in
    ground (arith, chosen, length-remove_known FilePath-discrete victim.0 e (first ∷ rest) known)
