-- ===== src/Prelude/Lists.antt =====
-- Lists measured, cut and overwritten at native positions, under the library's names.
use Prim.Native.Nat.{ℕ, zero, suc, ◌+◌, ◌-◌, ◌≤◌, ◌<◌, min}
use mathlib.Core.Bool.{Bool, true, false}
use mathlib.Core.Path.{◌≡◌, refl, sym, ap, ◌∙◌}
use mathlib.Core.List.{List, [], ◌∷◌, ◌++◌}
use mathlib.Core.Option.{Option, none, some}
use native.Mathlib.Decide.{dec_le}
use native.Mathlib.Omega.{arith}
use remote_file_system.Prelude.Tests.{ltb, if◌then◌else◌}

module _ {ℓ} {A : Type ℓ} where
  abbrev pub length : List A → ℕ
  length [] = 0
  length (x ∷ xs) = suc (length xs)

  abbrev pub get_elem? : List A → ℕ → Option A
  get_elem? [] i = none
  get_elem? (x ∷ xs) zero = some x
  get_elem? (x ∷ xs) (suc i) = get_elem? xs i

  abbrev pub take : ℕ → List A → List A
  take zero xs = []
  take (suc n) [] = []
  take (suc n) (x ∷ xs) = x ∷ take n xs

  abbrev pub drop : ℕ → List A → List A
  drop zero xs = xs
  drop (suc n) [] = []
  drop (suc n) (x ∷ xs) = drop n xs

  abbrev pub replicate : ℕ → A → List A
  replicate zero a = []
  replicate (suc n) a = a ∷ replicate n a

  abbrev pub is_empty : List A → Bool
  is_empty [] = true
  is_empty (x ∷ xs) = false

  -- `&xs[from..to]`
  abbrev pub slice : List A → ℕ → ℕ → List A
  slice xs from to = take (to - from) (drop from xs)

  -- `xs[i..i + ys.len()].copy_from_slice(ys)`; what does not fit is dropped.
  abbrev pub overwrite : List A → ℕ → List A → List A
  overwrite [] i ys = []
  overwrite (x ∷ xs) (suc i) ys = x ∷ overwrite xs i ys
  overwrite (x ∷ xs) zero [] = x ∷ xs
  overwrite (x ∷ xs) zero (y ∷ ys) = y ∷ overwrite xs zero ys

module _ {ℓ} {A : Type ℓ} where
  pub length-append : (xs ys : List A) → length (xs ++ ys) ≡ length xs + length ys
  length-append [] ys = omega arith
  length-append (x ∷ xs) ys = omega (arith, length-append xs ys)

  pub length-take : (n : ℕ) (xs : List A) → length (take n xs) ≡ min n (length xs)
  length-take zero xs = omega arith
  length-take (suc n) [] = omega arith
  length-take (suc n) (x ∷ xs) = omega (arith, length-take n xs)

  pub length-drop : (n : ℕ) (xs : List A) → length (drop n xs) ≡ length xs - n
  length-drop zero xs = omega arith
  length-drop (suc n) [] = omega arith
  length-drop (suc n) (x ∷ xs) = omega (arith, length-drop n xs)

  pub length-replicate : (n : ℕ) (a : A) → length (replicate n a) ≡ n
  length-replicate zero a = refl
  length-replicate (suc n) a = ap suc (length-replicate n a)

  pub length-overwrite :
      (xs : List A) (i : ℕ) (ys : List A) → length (overwrite xs i ys) ≡ length xs
  length-overwrite [] i ys = refl
  length-overwrite (x ∷ xs) (suc i) ys = ap suc (length-overwrite xs i ys)
  length-overwrite (x ∷ xs) zero [] = refl
  length-overwrite (x ∷ xs) zero (y ∷ ys) = ap suc (length-overwrite xs zero ys)

  pub take_of_length-le : (n : ℕ) (l : List A) → length l ≤ n → take n l ≡ l
  take_of_length-le (suc n) (a ∷ l) h = ground (arith, take_of_length-le n l (omega arith))
  take_of_length-le (suc n) [] h = refl
  take_of_length-le zero (a ∷ l) h = ground arith
  take_of_length-le zero [] h = refl

  pub take-append-drop : (n : ℕ) (xs : List A) → take n xs ++ drop n xs ≡ xs
  take-append-drop zero xs = refl
  take-append-drop (suc n) [] = refl
  take-append-drop (suc n) (x ∷ xs) = ap (◌∷◌ x) (take-append-drop n xs)

  -- What a copy leaves in front of its end: the old front, then the copied items.
  pub take-overwrite :
      (n : ℕ) (xs : List A) (i : ℕ) (ys : List A)
      → n ≡ i + length ys
      → n ≤ length xs
      → take n (overwrite xs i ys) ≡ take i xs ++ ys
  take-overwrite n [] zero [] e h = ground arith
  take-overwrite n [] zero (y ∷ ys) e h = absurd (omega arith)
  take-overwrite n [] (suc i) ys e h = absurd (omega arith)
  take-overwrite zero (x ∷ xs) (suc i) ys e h = absurd (omega arith)
  take-overwrite (suc n) (x ∷ xs) (suc i) ys e h =
      ap (◌∷◌ x) (take-overwrite n xs i ys (omega arith) (omega arith))
  take-overwrite zero (x ∷ xs) zero [] e h = refl
  take-overwrite (suc n) (x ∷ xs) zero [] e h = absurd (omega arith)
  take-overwrite zero (x ∷ xs) zero (y ∷ ys) e h = absurd (omega arith)
  take-overwrite (suc n) (x ∷ xs) zero (y ∷ ys) e h =
      ap (◌∷◌ y) (take-overwrite n xs zero ys (omega arith) (omega arith))

  pub take-append : (n : ℕ) (xs ys : List A) → n ≤ length xs → take n (xs ++ ys) ≡ take n xs
  take-append zero xs ys h = refl
  take-append (suc n) [] ys h = absurd (omega arith)
  take-append (suc n) (x ∷ xs) ys h = ap (◌∷◌ x) (take-append n xs ys (omega arith))

  pub take-drop-append :
      (n i : ℕ) (xs ys : List A)
      → i + n ≤ length xs
      → take n (drop i (xs ++ ys)) ≡ take n (drop i xs)
  take-drop-append n zero xs ys h = take-append n xs ys (omega arith)
  take-drop-append zero (suc i) [] ys h = refl
  take-drop-append (suc n) (suc i) [] ys h = absurd (omega arith)
  take-drop-append n (suc i) (x ∷ xs) ys h = take-drop-append n i xs ys (omega arith)

  pub overwrite_front :
      (xs ys : List A) → length ys ≤ length xs → overwrite xs 0 ys ≡ ys ++ drop (length ys) xs
  overwrite_front [] [] h = refl
  overwrite_front [] (y ∷ ys) h = absurd (omega arith)
  overwrite_front (x ∷ xs) [] h = refl
  overwrite_front (x ∷ xs) (y ∷ ys) h = ap (◌∷◌ y) (overwrite_front xs ys (omega arith))

  pub take-min-length : (n : ℕ) (xs : List A) → take (min n (length xs)) xs ≡ take n xs
  take-min-length n xs = elim (dec_le n (length xs)) [
    | yes h ↦ ap (λ k. take k xs) (omega arith)
    | no h ↦
        ap (λ k. take k xs) (let e : min n (length xs) ≡ length xs = omega arith in e)
        ∙ take_of_length-le (length xs) xs (omega arith)
        ∙ sym (take_of_length-le n xs (omega arith))
  ]

  pub drop_of_length-le : (n : ℕ) (xs : List A) → length xs ≤ n → drop n xs ≡ []
  drop_of_length-le zero [] h = refl
  drop_of_length-le zero (x ∷ xs) h = absurd (omega arith)
  drop_of_length-le (suc n) [] h = refl
  drop_of_length-le (suc n) (x ∷ xs) h = drop_of_length-le n xs (omega arith)

-- At bytes, for the tactics.
pub take_nil : (n : ℕ) → take {A = ℕ} n [] ≡ []
take_nil zero = refl
take_nil (suc n) = refl

-- Bytes and other small data: positions one by one.
module _ {A : Type 0} where
  -- What a copy leaves at each position.
  pub get_elem?-overwrite :
      (xs : List A) (i : ℕ) (ys : List A) (j : ℕ)
      → i + length ys ≤ length xs
      → get_elem? (overwrite xs i ys) j ≡ (
          if ltb j i
          then get_elem? xs j
          else if ltb j (i + length ys)
          then get_elem? ys (j - i)
          else get_elem? xs j)
  get_elem?-overwrite [] i [] j h = ground arith
  get_elem?-overwrite [] i (y ∷ ys) j h = absurd (omega arith)
  get_elem?-overwrite (x ∷ xs) (suc i) ys zero h = ground arith
  get_elem?-overwrite (x ∷ xs) (suc i) ys (suc j) h =
      ground (arith, get_elem?-overwrite xs i ys j (omega arith))
  get_elem?-overwrite (x ∷ xs) zero [] j h = ground arith
  get_elem?-overwrite (x ∷ xs) zero (y ∷ ys) zero h = ground arith
  get_elem?-overwrite (x ∷ xs) zero (y ∷ ys) (suc j) h =
      ground (arith, get_elem?-overwrite xs zero ys j (omega arith))

  pub get_elem?-take :
      (n : ℕ) (xs : List A) (j : ℕ)
      → get_elem? (take n xs) j ≡ (if ltb j n then get_elem? xs j else none)
  get_elem?-take zero xs j = ground arith
  get_elem?-take (suc n) [] j = ground arith
  get_elem?-take (suc n) (x ∷ xs) zero = ground arith
  get_elem?-take (suc n) (x ∷ xs) (suc j) = ground (arith, get_elem?-take n xs j)

  pub get_elem?-drop :
      (n : ℕ) (xs : List A) (j : ℕ) → get_elem? (drop n xs) j ≡ get_elem? xs (n + j)
  get_elem?-drop zero xs j = ap (get_elem? xs) (omega arith)
  get_elem?-drop (suc n) [] j = refl
  get_elem?-drop (suc n) (x ∷ xs) j =
      get_elem?-drop n xs j
      ∙ ap (get_elem? (x ∷ xs)) (let e : suc (n + j) ≡ suc n + j = omega arith in e)

  pub get_elem?_past : (xs : List A) (j : ℕ) → length xs ≤ j → get_elem? xs j ≡ none
  get_elem?_past [] j h = refl
  get_elem?_past (x ∷ xs) zero h = absurd (omega arith)
  get_elem?_past (x ∷ xs) (suc j) h = get_elem?_past xs j (omega arith)

  pub get_elem?_in : (xs : List A) (j : ℕ) → j < length xs → (a : A) × (get_elem? xs j ≡ some a)
  get_elem?_in [] j h = absurd (omega arith)
  get_elem?_in (x ∷ xs) zero h = (x, refl)
  get_elem?_in (x ∷ xs) (suc j) h = get_elem?_in xs j (omega arith)

  pub drop-get_elem? :
      (i : ℕ) (xs : List A) (a : A) → get_elem? xs i ≡ some a → drop i xs ≡ a ∷ drop (suc i) xs
  drop-get_elem? zero [] a h = ground arith
  drop-get_elem? zero (x ∷ xs) a h = ground arith
  drop-get_elem? (suc i) [] a h = ground arith
  drop-get_elem? (suc i) (x ∷ xs) a h = drop-get_elem? i xs a h
