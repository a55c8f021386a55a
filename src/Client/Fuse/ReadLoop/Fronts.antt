-- ===== src/Client/Fuse/ReadLoop/Fronts.antt =====
-- Fronts of lists, of which a read is put together.
use remote_file_system.Prelude.{
  ℕ, zero, suc, ◌+◌, ◌-◌, ◌≤◌, ◌≡◌, refl, sym, ap, ◌∙◌, inl, inr, List, [], ◌∷◌, ◌++◌, length,
  length-append, take_nil, drop_of_length-le, take, drop, min, take_of_length-le, ◌⊎◌, arith,
}

-- The front of a list.
abbrev pub IsPrefix : List ℕ → List ℕ → Type 0
IsPrefix xs ys = xs ≡ take (length xs) ys

pub take-take : (m n : ℕ) (xs : List ℕ) → take m (take n xs) ≡ take (min m n) xs
take-take zero n xs = ground arith
take-take (suc m) zero xs = ground arith
take-take (suc m) (suc n) [] = ground (arith, take_nil (min (suc m) (suc n)))
take-take (suc m) (suc n) (x ∷ xs) = ground (arith, take-take m n xs)

pub drop-take : (k n : ℕ) (xs : List ℕ) → drop k (take n xs) ≡ take (n - k) (drop k xs)
drop-take zero n xs = ground arith
drop-take (suc k) zero xs = ground arith
drop-take (suc k) (suc n) [] = ground (arith, take_nil (suc n - suc k))
drop-take (suc k) (suc n) (x ∷ xs) = ground (arith, drop-take k n xs)

pub suc_plus : (n k : ℕ) → suc (n + k) ≡ suc n + k
suc_plus n k = omega arith

pub drop-drop : (k n : ℕ) (xs : List ℕ) → drop k (drop n xs) ≡ drop (n + k) xs
drop-drop k zero xs = ground arith
drop-drop zero (suc n) [] =
    ground (arith, drop_of_length-le {A = ℕ} (suc n + zero) [] (omega arith))
drop-drop (suc k) (suc n) [] =
    ground (arith, drop_of_length-le {A = ℕ} (suc n + suc k) [] (omega arith))
drop-drop zero (suc n) (x ∷ xs) = drop-drop zero n xs ∙ ap (λ m. drop m (x ∷ xs)) (suc_plus n zero)
drop-drop (suc k) (suc n) (x ∷ xs) =
    drop-drop (suc k) n xs ∙ ap (λ m. drop m (x ∷ xs)) (suc_plus n (suc k))

pub take-IsPrefix : (n : ℕ) (xs : List ℕ) → IsPrefix (take n xs) xs
take-IsPrefix zero xs = refl
take-IsPrefix (suc n) [] = refl
take-IsPrefix (suc n) (x ∷ xs) = ap (◌∷◌ x) (take-IsPrefix n xs)

-- A part of the bytes read at one offset, seen from a later one.
pub window_IsPrefix :
    (len k c offset : ℕ) (content : List ℕ)
    → IsPrefix (take len (drop k (take c (drop offset content)))) (drop (offset + k) content)
window_IsPrefix len k c offset content =
    let l = drop offset content in
    ground (
      arith,
      drop-take k c l,
      drop-drop k offset content,
      take-take len (c - k) (drop (offset + k) content),
      take-IsPrefix (min len (c - k)) (drop (offset + k) content),
    )

-- A front, and a front of what follows it.
pub take-plus : (k m : ℕ) (xs : List ℕ) → take k xs ++ take m (drop k xs) ≡ take (k + m) xs
take-plus zero m xs = ground arith
take-plus (suc k) m [] = ground (arith, take_nil m, take_nil (suc k + m))
take-plus (suc k) m (x ∷ xs) =
    ap (◌∷◌ x) (take-plus k m xs) ∙ ap (λ n. take n (x ∷ xs)) (suc_plus k m)

pub append-IsPrefix :
    (xs ys l : List ℕ) → IsPrefix xs l → IsPrefix ys (drop (length xs) l) → IsPrefix (xs ++ ys) l
append-IsPrefix xs ys l h k =
    ground (arith, h, k, take-plus (length xs) (length ys) l, length-append xs ys)

-- A front as long as the whole is the whole, however much is taken.
pub whole_front :
    (n : ℕ) (xs l : List ℕ) → IsPrefix xs l → length l ≤ length xs → length xs ≤ n → xs ≡ take n l
whole_front n xs l h k m =
    h ∙ take_of_length-le (length xs) l k ∙ sym (take_of_length-le n l (omega (arith, k, m)))

pub list-cases : (xs : List ℕ) → (xs ≡ []) ⊎ ((b : ℕ) × (bs : List ℕ) × (xs ≡ b ∷ bs))
list-cases [] = inl refl
list-cases (b ∷ bs) = inr (b, bs, refl)

-- A front of a front.
pub front_of_front : (n : ℕ) (xs l : List ℕ) → IsPrefix xs l → IsPrefix (take n xs) l
front_of_front n xs l h =
    ground (arith, h, take-take n (length xs) l, take-IsPrefix (min n (length xs)) l)
