-- ===== src/Util.antt =====
-- Paths and lists of values in a configuration: client/src/util.rs, of which server/src/util.rs is a
-- copy.
use mathlib.Core.Path.{subst}
use remote_file_system.Prelude.{
  Option-cases, Option, none, some, [], ◌∷◌, ◌++◌, ◌≡◌, refl, ap, sym, ◌∙◌, inl, inr, arith,
  append-nil, append_assoc,
}
use remote_file_system.Paths.{Text, FilePath, root_dir, cur_dir, parent_dir, normal, parent}

abbrev or_else : Option FilePath → FilePath → FilePath
or_else none p = p
or_else (some q) p = q

-- `ret.pop()`: nothing is taken from a path without a parent.
abbrev pub pop : FilePath → FilePath
pop path = or_else (parent path) path

-- The loop over the components. What is pushed is a root, which replaces the path, or a name.
unfoldable pub normalize_from : FilePath → FilePath → FilePath
normalize_from ret [] = ret
normalize_from ret (root_dir ∷ p) = normalize_from (root_dir ∷ []) p
normalize_from ret (cur_dir ∷ p) = normalize_from ret p
normalize_from ret (parent_dir ∷ p) = normalize_from (pop ret) p
normalize_from ret (normal t ∷ p) = normalize_from (ret ++ normal t ∷ []) p

unfoldable pub normalize_path : FilePath → FilePath
normalize_path p = normalize_from [] p

unfoldable pub normalize_optional_path : Option FilePath → Option FilePath
normalize_optional_path none = none
normalize_optional_path (some p) = some (normalize_path p)

-- Nothing but names.
abbrev pub AllNames : FilePath → Type 0
AllNames [] = Unit {0}
AllNames (normal t ∷ p) = AllNames p
AllNames (_ ∷ p) = ⊥

-- Names, behind a root or not.
abbrev pub IsNormal : FilePath → Type 0
IsNormal (root_dir ∷ p) = AllNames p
IsNormal p = AllNames p

AllNames-snoc : (p : FilePath) (t : Text) → AllNames p → AllNames (p ++ normal t ∷ [])
AllNames-snoc [] t h = tt
AllNames-snoc (normal u ∷ p) t h = AllNames-snoc p t h
AllNames-snoc (root_dir ∷ p) t h = elim h [ ]
AllNames-snoc (cur_dir ∷ p) t h = elim h [ ]
AllNames-snoc (parent_dir ∷ p) t h = elim h [ ]

IsNormal-snoc : (p : FilePath) (t : Text) → IsNormal p → IsNormal (p ++ normal t ∷ [])
IsNormal-snoc [] t h = tt
IsNormal-snoc (root_dir ∷ p) t h = AllNames-snoc p t h
IsNormal-snoc (normal u ∷ p) t h = AllNames-snoc p t h
IsNormal-snoc (cur_dir ∷ p) t h = elim h [ ]
IsNormal-snoc (parent_dir ∷ p) t h = elim h [ ]

-- The path without its last name, written out for names.
AllNames-parent : (p q : FilePath) → AllNames p → parent p ≡ some q → AllNames q
AllNames-parent [] q h e = ground (arith, e)
AllNames-parent (normal t ∷ []) q h e = ground (arith, e)
AllNames-parent (normal t ∷ normal u ∷ p) q h e = elim (Option-cases (parent (normal u ∷ p))) [
  | inl n ↦ subst AllNames (let r : normal t ∷ [] ≡ q = ground (arith, n, e) in r) tt
  | inr (r, n) ↦
      subst AllNames (let s : normal t ∷ r ≡ q = ground (arith, n, e) in s)
        (AllNames-parent (normal u ∷ p) r h n)
]
AllNames-parent (normal t ∷ root_dir ∷ p) q h e = elim h [ ]
AllNames-parent (normal t ∷ cur_dir ∷ p) q h e = elim h [ ]
AllNames-parent (normal t ∷ parent_dir ∷ p) q h e = elim h [ ]
AllNames-parent (root_dir ∷ p) q h e = elim h [ ]
AllNames-parent (cur_dir ∷ p) q h e = elim h [ ]
AllNames-parent (parent_dir ∷ p) q h e = elim h [ ]

IsNormal-of_names : (p : FilePath) → AllNames p → IsNormal p
IsNormal-of_names [] h = tt
IsNormal-of_names (normal t ∷ p) h = h
IsNormal-of_names (root_dir ∷ p) h = elim h [ ]
IsNormal-of_names (cur_dir ∷ p) h = elim h [ ]
IsNormal-of_names (parent_dir ∷ p) h = elim h [ ]

pop-some : (p q : FilePath) → parent p ≡ some q → pop p ≡ q
pop-some p q h = ap (λ o. or_else o p) h

pop-none : (p : FilePath) → parent p ≡ none → pop p ≡ p
pop-none p h = ap (λ o. or_else o p) h

IsNormal-pop : (p : FilePath) → IsNormal p → IsNormal (pop p)
IsNormal-pop [] h = tt
IsNormal-pop (root_dir ∷ []) h = tt
IsNormal-pop (root_dir ∷ c ∷ p) h = elim (Option-cases (parent (c ∷ p))) [
  | inl n ↦
      let at_root = pop-some (root_dir ∷ c ∷ p) (root_dir ∷ []) (ground (arith, n)) in
      subst IsNormal (sym at_root) tt
  | inr (q, n) ↦
      let above = pop-some (root_dir ∷ c ∷ p) (root_dir ∷ q) (ground (arith, n)) in
      subst IsNormal (sym above) (AllNames-parent (c ∷ p) q h n)
]
IsNormal-pop (normal t ∷ p) h = elim (Option-cases (parent (normal t ∷ p))) [
  | inl n ↦ subst IsNormal (sym (pop-none (normal t ∷ p) n)) h
  | inr (q, n) ↦
      subst IsNormal (sym (pop-some (normal t ∷ p) q n))
        (IsNormal-of_names q (AllNames-parent (normal t ∷ p) q h n))
]
IsNormal-pop (cur_dir ∷ p) h = elim h [ ]
IsNormal-pop (parent_dir ∷ p) h = elim h [ ]

normalize_from-IsNormal : (ret p : FilePath) → IsNormal ret → IsNormal (normalize_from ret p)
unfolding normalize_from
normalize_from-IsNormal ret [] h = h
normalize_from-IsNormal ret (root_dir ∷ p) h = normalize_from-IsNormal (root_dir ∷ []) p tt
normalize_from-IsNormal ret (cur_dir ∷ p) h = normalize_from-IsNormal ret p h
normalize_from-IsNormal ret (parent_dir ∷ p) h =
    normalize_from-IsNormal (pop ret) p (IsNormal-pop ret h)
normalize_from-IsNormal ret (normal t ∷ p) h =
    normalize_from-IsNormal (ret ++ normal t ∷ []) p (IsNormal-snoc ret t h)

normalize_from-names : (ret p : FilePath) → AllNames p → normalize_from ret p ≡ ret ++ p
unfolding normalize_from
normalize_from-names ret [] h = sym (append-nil ret)
normalize_from-names ret (normal t ∷ p) h =
    normalize_from-names (ret ++ normal t ∷ []) p h ∙ append_assoc ret (normal t ∷ []) p
normalize_from-names ret (root_dir ∷ p) h = elim h [ ]
normalize_from-names ret (cur_dir ∷ p) h = elim h [ ]
normalize_from-names ret (parent_dir ∷ p) h = elim h [ ]

normalize_path_of_normal : (p : FilePath) → IsNormal p → normalize_path p ≡ p
unfolding normalize_path normalize_from
normalize_path_of_normal [] h = refl
normalize_path_of_normal (root_dir ∷ p) h = normalize_from-names (root_dir ∷ []) p h
normalize_path_of_normal (normal t ∷ p) h = normalize_from-names (normal t ∷ []) p h
normalize_path_of_normal (cur_dir ∷ p) h = elim h [ ]
normalize_path_of_normal (parent_dir ∷ p) h = elim h [ ]

-- A normalised path is names alone, behind a root or not, without `.` and `..`, and
-- normalising twice is normalising once.
pub normalize_path_lem :
    (p : FilePath)
    → IsNormal (normalize_path p) × (normalize_path (normalize_path p) ≡ normalize_path p)
unfolding normalize_path
normalize_path_lem p =
    let normal_form = normalize_from-IsNormal [] p tt in
    (normal_form, normalize_path_of_normal (normalize_path p) normal_form)
