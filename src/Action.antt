-- ===== src/Action.antt =====
-- Methods that change a state and may fail or panic: an error leaves what was
-- changed before it. What only reads takes the state and gives no new one.
use remote_file_system.Prelude.{Bool, true, false, ◌≡◌, refl, ap, ◌⊎◌, inl, inr, arith}

pub data Outcome (E A : Type 0) : Type 0 where
  ok : A → Outcome E A
  err : E → Outcome E A
  panicked : Outcome E A

abbrev pub is_ok : {E A : Type 0} → Outcome E A → Bool
is_ok (ok a) = true
is_ok _ = false

abbrev pub Action : Type 0 → Type 0 → Type 0 → Type 0
Action E S A = S → Outcome E A × S

abbrev pub map_err : {E F A : Type 0} → (E → F) → Outcome E A → Outcome F A
map_err f (ok a) = ok a
map_err f (err e) = err (f e)
map_err f panicked = panicked

module _ {E : Type 0} where
  -- `?` on a result.
  abbrev pub and_then : {A B : Type 0} → Outcome E A → (A → Outcome E B) → Outcome E B
  and_then (ok a) f = f a
  and_then (err e) f = err e
  and_then panicked f = panicked

module _ {E S : Type 0} where
  abbrev pub pure : {A : Type 0} → A → Action E S A
  pure a s = (ok a, s)

  abbrev pub raise : {A : Type 0} → E → Action E S A
  raise e s = (err e, s)

  -- A step that reads the state.
  abbrev pub reading : {A : Type 0} → (S → Outcome E A) → Action E S A
  reading f s = (f s, s)

  abbrev pub continue : {A B : Type 0} → Outcome E A → (A → Action E S B) → Action E S B
  continue (ok a) f s = f a s
  continue (err e) f s = (err e, s)
  continue panicked f s = (panicked, s)

  infixl 5 ◌>>=◌ ◌>>◌
  abbrev pub ◌>>=◌ : {A B : Type 0} → Action E S A → (A → Action E S B) → Action E S B
  ◌>>=◌ m f s = let (r, s') = m s in continue r f s'

  abbrev pub ◌>>◌ : {A B : Type 0} → Action E S A → Action E S B → Action E S B
  m >> n = m >>= λ _. n

pub outcome-cases :
    {E A : Type 0} (r : Outcome E A)
    → ((a : A) × (r ≡ ok a)) ⊎ (((e : E) × (r ≡ err e)) ⊎ (r ≡ panicked))
outcome-cases (ok a) = inl (a, refl)
outcome-cases (err e) = inr (inl (e, refl))
outcome-cases panicked = inr (inr refl)

-- A chain that succeeds has a first part that does, and a rest.
pub bind-ok :
    {E S A B : Type 0} (m : Action E S A) (f : A → Action E S B) (s s' : S) (b : B)
    → (m >>= f) s ≡ (ok b, s')
    → (a : A) × (t : S) × (m s ≡ (ok a, t)) × (f a t ≡ (ok b, s'))
bind-ok m f s s' b h = elim (outcome-cases (m s).0) [
  | inl (a, e) ↦ (a, (m s).1, ap (λ r. (r, (m s).1)) e, ground (arith, e, h))
  | inr (inl (_, e)) ↦ ground (arith, e, h)
  | inr (inr e) ↦ ground (arith, e, h)
]
