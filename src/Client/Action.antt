-- ===== src/Client/Action.antt =====
-- Methods that change an object and may fail: an error leaves what was changed before it.
use remote_file_system.Prelude.{Option, none, some, ◌≡◌, refl, ◌⊎◌, inl, inr}
use remote_file_system.Client.Errors.{FsModelError}

pub data Outcome {ℓ} (A : Type ℓ) : Type ℓ where
  ok : A → Outcome A
  err : FsModelError → Outcome A
  panicked : Outcome A

abbrev pub Action : Type 0 → Type 0 → Type 0
Action S A = S → Outcome A × S

module _ {S : Type 0} where
  abbrev pub pure : {A : Type 0} → A → Action S A
  pure a s = (ok a, s)

  abbrev pub raise : {A : Type 0} → FsModelError → Action S A
  raise e s = (err e, s)

  abbrev pub continue : {A B : Type 0} → Outcome A → (A → Action S B) → Action S B
  continue (ok a) f s = f a s
  continue (err e) f s = (err e, s)
  continue panicked f s = (panicked, s)

  infixl 5 ◌>>=◌ ◌>>◌
  abbrev pub ◌>>=◌ : {A B : Type 0} → Action S A → (A → Action S B) → Action S B
  ◌>>=◌ m f s = let (r, s') = m s in continue r f s'

  abbrev pub ◌>>◌ : {A B : Type 0} → Action S A → Action S B → Action S B
  m >> n = m >>= λ _. n

  -- The result of an action whose error is dropped: `if let Ok(a) = …`.
  abbrev pub attempt : {A : Type 0} → Action S A → Action S (Option A)
  attempt m s =
      let (r, s') = m s in
      elim r [ ok a ↦ (ok (some a), s') | err e ↦ (ok none, s') | panicked ↦ (panicked, s') ]

pub outcome-cases :
    {A : Type 0} (r : Outcome A)
    → ((a : A) × (r ≡ ok a)) ⊎ (((e : FsModelError) × (r ≡ err e)) ⊎ (r ≡ panicked))
outcome-cases (ok a) = inl (a, refl)
outcome-cases (err e) = inr (inl (e, refl))
outcome-cases panicked = inr (inr refl)
