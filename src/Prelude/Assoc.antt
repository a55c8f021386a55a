-- ===== src/Prelude/Assoc.antt =====
-- A `HashMap` as an association list without repeated keys; its order is the map's order of
-- iteration, of which nothing is assumed.
use Prim.Native.Nat.{suc, ◌≤◌}
use mathlib.Core.List.{List, [], ◌∷◌}
use mathlib.Core.Logic.{ite, if_pos, if_neg}
use mathlib.Core.Option.{Option, none, some, some-injective}
use mathlib.Core.Path.{◌≡◌, refl, subst}
use native.Mathlib.Omega.{arith}
use remote_file_system.Prelude.Lists.{length}

module _ {K V : Type 0} (dec : Discrete K) where
  abbrev pub lookup : K → List (K × V) → Option V
  lookup k [] = none
  lookup k ((j, v) ∷ m) = ite (dec j k) (some v) (lookup k m)

  -- `insert`: the new value stands in the place of an old one.
  abbrev pub insert : K → V → List (K × V) → List (K × V)
  insert k v [] = (k, v) ∷ []
  insert k v ((j, w) ∷ m) = ite (dec j k) ((j, v) ∷ m) ((j, w) ∷ insert k v m)

  abbrev pub remove : K → List (K × V) → List (K × V)
  remove k [] = []
  remove k ((j, v) ∷ m) = ite (dec j k) (remove k m) ((j, v) ∷ remove k m)

  pub lookup-insert :
      (k j : K) (v : V) (m : List (K × V))
      → lookup j (insert k v m) ≡ ite (dec k j) (some v) (lookup j m)
  lookup-insert k j v [] = refl
  lookup-insert k j v ((i, w) ∷ m) = ground (arith, lookup-insert k j v m)

  pub lookup-remove :
      (k j : K) (m : List (K × V)) → lookup j (remove k m) ≡ ite (dec k j) none (lookup j m)
  lookup-remove k j [] = ground arith
  lookup-remove k j ((i, w) ∷ m) = ground (arith, lookup-remove k j m)

  pub length-insert : (k : K) (v : V) (m : List (K × V)) → length (insert k v m) ≤ suc (length m)
  length-insert k v [] = omega arith
  length-insert k v ((i, w) ∷ m) = ground (arith, length-insert k v m)

  pub length-insert_known :
      (k : K) (v w : V) (m : List (K × V)) → lookup k m ≡ some w → length (insert k v m) ≡ length m
  length-insert_known k v w [] h = ground arith
  length-insert_known k v w ((i, x) ∷ m) h = ground (arith, length-insert_known k v w m)

  pub length-remove : (k : K) (m : List (K × V)) → length (remove k m) ≤ length m
  length-remove k [] = omega arith
  length-remove k ((i, w) ∷ m) = ground (arith, length-remove k m)

  pub length-remove_known :
      (k : K) (w : V) (m : List (K × V))
      → lookup k m ≡ some w
      → suc (length (remove k m)) ≤ length m
  length-remove_known k w [] h = ground arith
  length-remove_known k w ((i, x) ∷ m) h =
      ground (arith, length-remove_known k w m, length-remove k m)

-- Every value of a map.
abbrev pub All : {K V : Type 0} → (V → Type 0) → List (K × V) → Type 0
All P [] = Unit {0}
All P ((k, v) ∷ m) = P v × All P m

module _ {K V : Type 0} (dec : Discrete K) (P : V → Type 0) where
  pub All-lookup : (k : K) {v : V} (m : List (K × V)) → All P m → lookup dec k m ≡ some v → P v
  All-lookup k [] a h = ground arith
  All-lookup k ((j, w) ∷ m) a h = elim (dec j k) [
    | yes e ↦ subst P (some-injective _ _ (rw (if_pos (dec j k) e) at h)) a.0
    | no e ↦ All-lookup k m a.1 (rw (if_neg (dec j k) e) at h)
  ]

  pub All-insert : (k : K) (v : V) (m : List (K × V)) → All P m → P v → All P (insert dec k v m)
  All-insert k v [] a p = (p, tt)
  All-insert k v ((j, w) ∷ m) a p = elim (dec j k) [
    | yes e ↦ rw (if_pos (dec j k) e) (p, a.1)
    | no e ↦ rw (if_neg (dec j k) e) (a.0, All-insert k v m a.1 p)
  ]

  pub All-remove : (k : K) (m : List (K × V)) → All P m → All P (remove dec k m)
  All-remove k [] a = a
  All-remove k ((j, w) ∷ m) a = elim (dec j k) [
    | yes e ↦ rw (if_pos (dec j k) e) (All-remove k m a.1)
    | no e ↦ rw (if_neg (dec j k) e) (a.0, All-remove k m a.1)
  ]
