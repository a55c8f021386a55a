-- ===== src/Client/Windows/Entries/Order.antt =====
-- The sorting of a directory by name: client/src/fuse/windows.rs.
use mathlib.Core.List.{Perm}
use mathlib.Core.List.Perm
use remote_file_system.Prelude.{◌≡◌, refl, true, false, Bool-cases, inl, inr, List, [], ◌∷◌, arith}
use remote_file_system.Paths.{Text}
use remote_file_system.Client.Network.{SerializableFsItem}
use remote_file_system.Client.Windows.Entries.{text_le, insert_by_name, sort_by_name}

text_le_total : (t u : Text) → text_le t u ≡ false → text_le u t ≡ true
unfolding text_le
text_le_total [] u h = ground (arith, h)
text_le_total (c ∷ t) [] h = refl
text_le_total (c ∷ t) (d ∷ u) h = ground (arith, h, text_le_total t u)

-- The first item, if any, is not before the name.
abbrev StartsAfter : Text → List SerializableFsItem → Type 0
StartsAfter name [] = Unit {0}
StartsAfter name (j ∷ js) = text_le name j.name ≡ true

-- Each name is not after the next one.
abbrev pub IsOrdered : List SerializableFsItem → Type 0
IsOrdered [] = Unit {0}
IsOrdered (i ∷ is) = StartsAfter i.name is × IsOrdered is

insert_by_name-StartsAfter :
    (name : Text) (i : SerializableFsItem) (js : List SerializableFsItem)
    → text_le name i.name ≡ true
    → StartsAfter name js
    → StartsAfter name (insert_by_name i js)
unfolding insert_by_name
insert_by_name-StartsAfter name i [] h a = h
insert_by_name-StartsAfter name i (j ∷ js) h a = elim (Bool-cases (text_le i.name j.name)) [
  | inl e ↦ ground (arith, e, h)
  | inr e ↦ ground (arith, e, a)
]

insert_by_name-IsOrdered :
    (i : SerializableFsItem) (js : List SerializableFsItem)
    → IsOrdered js
    → IsOrdered (insert_by_name i js)
unfolding insert_by_name
insert_by_name-IsOrdered i [] h = (tt, tt)
insert_by_name-IsOrdered i (j ∷ js) h = elim (Bool-cases (text_le i.name j.name)) [
  | inl e ↦ ground (arith, e, h)
  | inr e ↦ ground (
    arith,
    e,
    h,
    insert_by_name-StartsAfter j.name i js (text_le_total i.name j.name e) h.0,
    insert_by_name-IsOrdered i js h.1,
  )
]

pub sort_by_name-IsOrdered : (is : List SerializableFsItem) → IsOrdered (sort_by_name is)
unfolding sort_by_name
sort_by_name-IsOrdered [] = tt
sort_by_name-IsOrdered (i ∷ is) =
    insert_by_name-IsOrdered i (sort_by_name is) (sort_by_name-IsOrdered is)

insert_by_name-perm :
    (i : SerializableFsItem) (js : List SerializableFsItem) → Perm (insert_by_name i js) (i ∷ js)
unfolding insert_by_name
insert_by_name-perm i [] = Perm.refl (i ∷ [])
insert_by_name-perm i (j ∷ js) = elim (Bool-cases (text_le i.name j.name)) [
  | inl e ↦ rw e (Perm.refl (i ∷ j ∷ js))
  | inr e ↦ rw e (Perm.trans (Perm.cons j (insert_by_name-perm i js)) (Perm.swap i j js))
]

pub sort_by_name-perm : (is : List SerializableFsItem) → Perm (sort_by_name is) is
unfolding sort_by_name
sort_by_name-perm [] = Perm.refl []
sort_by_name-perm (i ∷ is) =
    Perm.trans (insert_by_name-perm i (sort_by_name is)) (Perm.cons i (sort_by_name-perm is))
