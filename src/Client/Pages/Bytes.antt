-- ===== src/Client/Pages/Bytes.antt =====
-- The bytes that the pages of client/src/fs_model/file.rs hold, as a partial map from positions.
use remote_file_system.Prelude.{
  ℕ, zero, suc, ◌+◌, ◌/◌, ◌%◌, ◌≤◌, ◌<◌, ◌≡◌, refl, Option, none, some, List, [], ◌∷◌, ◌++◌, length,
  get_elem?, ltb, leb, ◌&&◌, ℕ_discrete, if◌then◌else◌, arith,
}
use remote_file_system.Prelude.Assoc.{lookup, All}
use remote_file_system.Client.Pages.{FilePage, Content}

abbrev pub page_byte : FilePage → ℕ → Option ℕ
page_byte p i = if leb p.valid_from i && ltb i p.valid_up_to then get_elem? p.content i else none

abbrev pub byte_in : Option FilePage → ℕ → Option ℕ
byte_in none i = none
byte_in (some p) i = page_byte p i

-- The byte at a position of the file.
unfoldable pub byte_at : ℕ → Content → ℕ → Option ℕ
byte_at ps c i = byte_in (lookup ℕ_discrete (i / ps) c) (i % ps)

-- The bytes from a position on, at most `n`, up to the first that is not there.
unfoldable pub known_run : (ℕ → Option ℕ) → ℕ → ℕ → List ℕ
known_run bytes i zero = []
known_run bytes i (suc n) = elim (bytes i) [ none ↦ [] | some b ↦ b ∷ known_run bytes (suc i) n ]

pub record IsValidPage (ps : ℕ) (p : FilePage) : Type 0 where
  pub storage : length p.content ≡ ps
  pub up_to : p.valid_up_to ≤ ps

abbrev pub IsValid : ℕ → Content → Type 0
IsValid ps c = All (IsValidPage ps) c

-- Two maps that agree on a stretch have the same run there.
pub known_run_cong :
    (f g : ℕ → Option ℕ) (i j n : ℕ)
    → ((k : ℕ) → k < n → f (i + k) ≡ g (j + k))
    → known_run f i n ≡ known_run g j n
unfolding known_run
known_run_cong f g i j zero h = refl
known_run_cong f g i j (suc n) h =
    let here : f i ≡ g j =
      (let e : f (i + 0) ≡ g (j + 0) = h 0 (omega arith) in ground (arith, e)) in
    ground (
      arith,
      here,
      known_run_cong f g (suc i) (suc j) n (λ k p.
          let e : f (i + suc k) ≡ g (j + suc k) = h (suc k) (omega arith) in ground (arith, e)),
    )

pub known_run-none : (f : ℕ → Option ℕ) (i n : ℕ) → f i ≡ none → known_run f i n ≡ []
unfolding known_run
known_run-none f i zero h = refl
known_run-none f i (suc n) h = ground arith

pub length-known_run : (f : ℕ → Option ℕ) (i n : ℕ) → length (known_run f i n) ≤ n
unfolding known_run
length-known_run f i zero = omega arith
length-known_run f i (suc n) = ground (arith, length-known_run f (suc i) n)

-- A run is a run of its front, and where that is complete, a run of the rest.
pub known_run_split :
    (f : ℕ → Option ℕ) (i a b : ℕ)
    → known_run f i (a + b) ≡ (
        if ltb (length (known_run f i a)) a
        then known_run f i a
        else known_run f i a ++ known_run f (i + a) b)
unfolding known_run
known_run_split f i zero b = ground arith
known_run_split f i (suc a) b =
    let total : suc a + b ≡ suc (a + b) = omega arith in
    let next : i + suc a ≡ suc i + a = omega arith in
    ground (arith, total, next, known_run_split f (suc i) a b)

-- A map that agrees with a list from a position on has that list as its run.
pub known_run_list :
    (f : ℕ → Option ℕ) (i : ℕ) (bytes : List ℕ)
    → ((k : ℕ) → k < length bytes → f (i + k) ≡ get_elem? bytes k)
    → known_run f i (length bytes) ≡ bytes
unfolding known_run
known_run_list f i [] h = refl
known_run_list f i (x ∷ xs) h =
    let start : i + 0 ≡ i = omega arith in
    ground (
      arith,
      start,
      h 0 (omega arith),
      known_run_list f (suc i) xs
          (λ k lt. let e : suc i + k ≡ i + suc k = omega arith in rw e (h (suc k) (omega arith))),
    )
