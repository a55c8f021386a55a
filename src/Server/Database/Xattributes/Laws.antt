-- ===== src/Server/Database/Xattributes/Laws.antt =====
-- What the extended attributes of server/src/db.rs hold after a change.
use remote_file_system.Prelude.{
  ℕ, ◌&&◌, true, false, none, some, List, [], ◌∷◌, ◌≡◌, ◌≢◌, refl, arith, Bool-cases, inl, inr,
  if◌then◌else◌,
}
use remote_file_system.Paths.{Text, text}
use remote_file_system.Server.Database.{Database, ok, same_text, update, delete, any}
use remote_file_system.Server.Database.Xattributes.{
  Rows, is_at, is_of, has_unique_keys, set_rows, bytes_at, moved, set_x_attributes,
  get_x_attributes, remove_x_attributes, rename_x_attributes, exchange_x_attributes,
}

bytes_at-delete :
    (path name p n : Text) (rows : Rows)
    → bytes_at p n (delete (is_at path name) rows)
      ≡ (if same_text path p && same_text name n then none else bytes_at p n rows)
unfolding bytes_at
bytes_at-delete path name p n [] = ground arith
bytes_at-delete path name p n (r ∷ rows) = ground (arith, bytes_at-delete path name p n rows)

bytes_at-none :
    (path name : Text) (rows : Rows)
    → any (is_at path name) rows ≡ false
    → bytes_at path name rows ≡ none
unfolding bytes_at
bytes_at-none path name [] h = refl
bytes_at-none path name (r ∷ rows) h = ground (arith, bytes_at-none path name rows)

-- A swapped update leaves the attribute as it was.
bytes_at-update_swapped :
    (path name : Text) (bytes : List ℕ) (rows : Rows)
    → path ≢ name
    → bytes_at path name (update (is_at name path) (λ r. record r { xattributes = bytes }) rows)
      ≡ bytes_at path name rows
unfolding bytes_at
bytes_at-update_swapped path name bytes [] h = refl
bytes_at-update_swapped path name bytes (r ∷ rows) h =
    ground (arith, h, bytes_at-update_swapped path name bytes rows h)

-- Where path and name differ, the first set of an attribute is read back, and after a set of an
-- attribute that is there already the old bytes are read.
pub get-set_x_attributes :
    (path name : Text) (bytes : List ℕ) (d : Database)
    → path ≢ name
    → (get_x_attributes path name (set_x_attributes path name bytes d).1).0
      ≡ ok (
          if any (is_at path name) d.xattributes
          then bytes_at path name d.xattributes
          else some bytes)
unfolding get_x_attributes set_x_attributes set_rows bytes_at
get-set_x_attributes path name bytes d ne =
    elim (Bool-cases (any (is_at path name) d.xattributes)) [
      | inl e ↦ rw (e, bytes_at-update_swapped path name bytes d.xattributes ne) refl
      | inr e ↦ rw e (ground arith)
    ]

-- A removed attribute is not found, and every other attribute is what it was.
pub get-remove_x_attributes :
    (path name p n : Text) (d : Database)
    → (get_x_attributes p n (remove_x_attributes path name d).1).0
      ≡ ok (if same_text path p && same_text name n then none else bytes_at p n d.xattributes)
unfolding get_x_attributes remove_x_attributes
get-remove_x_attributes path name p n d = rw (bytes_at-delete path name p n d.xattributes) refl

bytes_at-moved :
    (old new p n : Text) (rows : Rows)
    → any (is_of new) rows ≡ false
    → bytes_at p n (moved old new rows) ≡ (
        if same_text new p
        then bytes_at old n rows
        else if same_text old p
        then none
        else bytes_at p n rows)
unfolding bytes_at
bytes_at-moved old new p n [] h = ground arith
bytes_at-moved old new p n (r ∷ rows) h = ground (arith, bytes_at-moved old new p n rows)

any-moved :
    (old new p n : Text) (rows : Rows)
    → any (is_of new) rows ≡ false
    → any (is_at p n) (moved old new rows) ≡ (
        if same_text new p
        then any (is_at old n) rows
        else if same_text old p
        then false
        else any (is_at p n) rows)
any-moved old new p n [] h = ground arith
any-moved old new p n (r ∷ rows) h = ground (arith, any-moved old new p n rows)

any_of-moved :
    (old new p : Text) (rows : Rows)
    → any (is_of new) rows ≡ false
    → any (is_of p) (moved old new rows) ≡ (
        if same_text new p
        then any (is_of old) rows
        else if same_text old p
        then false
        else any (is_of p) rows)
any_of-moved old new p [] h = ground arith
any_of-moved old new p (r ∷ rows) h = ground (arith, any_of-moved old new p rows)

moved_unique :
    (old new : Text) (rows : Rows)
    → any (is_of new) rows ≡ false
    → has_unique_keys rows ≡ true
    → has_unique_keys (moved old new rows) ≡ true
moved_unique old new [] h u = refl
moved_unique old new (r ∷ rows) h u = ground (
  arith,
  any-moved old new r.path r.name rows,
  any-moved old new new r.name rows,
  moved_unique old new rows,
)

-- A rename to a path without attributes succeeds where keys are unique, and leaves them unique:
-- the new path has the attributes that the old one had, the old one has none, and every other path
-- has its own.
pub rename_x_attributes_moves :
    (old new p n : Text) (d : Database)
    → any (is_of new) d.xattributes ≡ false
    → has_unique_keys d.xattributes ≡ true
    → let (r, d') = rename_x_attributes old new d in
      (r ≡ ok tt)
      × (has_unique_keys d'.xattributes ≡ true)
      × ((get_x_attributes p n d').0
          ≡ ok (
              if same_text new p
              then bytes_at old n d.xattributes
              else if same_text old p
              then none
              else bytes_at p n d.xattributes))
unfolding rename_x_attributes get_x_attributes
rename_x_attributes_moves old new p n d h u = rw (moved_unique old new d.xattributes h u) (
  refl,
  moved_unique old new d.xattributes h u,
  rw (bytes_at-moved old new p n d.xattributes h) refl,
)

module _ (path1 path2 tmp : Text) (rows : Rows) (ne : path1 ≢ path2) (ne1 : path1 ≢ tmp)
    (ne2 : path2 ≢ tmp) (free : any (is_of tmp) rows ≡ false)
    (u : has_unique_keys rows ≡ true) where
  abbrev first : Rows
  first = moved path1 tmp rows

  abbrev second : Rows
  second = moved path2 path1 first

  abbrev third : Rows
  third = moved tmp path2 second

  first_free : any (is_of path1) first ≡ false
  first_free = ground (arith, any_of-moved path1 tmp path1 rows free)

  second_free : any (is_of path2) second ≡ false
  second_free = ground (arith, any_of-moved path2 path1 path2 first first_free)

  first_unique : has_unique_keys first ≡ true
  first_unique = moved_unique path1 tmp rows free u

  second_unique : has_unique_keys second ≡ true
  second_unique = moved_unique path2 path1 first first_free first_unique

  third_unique : has_unique_keys third ≡ true
  third_unique = moved_unique tmp path2 second second_free second_unique

  bytes_at-exchanged :
      (n : Text)
      → (bytes_at path1 n third ≡ bytes_at path2 n rows)
        × (bytes_at path2 n third ≡ bytes_at path1 n rows)
  bytes_at-exchanged n = (
    ground (
      arith,
      bytes_at-moved tmp path2 path1 n second second_free,
      bytes_at-moved path2 path1 path1 n first first_free,
      bytes_at-moved path1 tmp path2 n rows free,
    ),
    ground (
      arith,
      bytes_at-moved tmp path2 path2 n second second_free,
      bytes_at-moved path2 path1 tmp n first first_free,
      bytes_at-moved path1 tmp tmp n rows free,
    ),
  )

-- An exchange of two different paths, neither of them the temporary one, succeeds where keys are
-- unique and nothing has the temporary path: each of the two has the attributes that the other had.
pub exchange_x_attributes_swaps :
    (path1 path2 n : Text) (d : Database)
    → path1 ≢ path2
    → path1 ≢ text "__tmp_exchange__"
    → path2 ≢ text "__tmp_exchange__"
    → any (is_of (text "__tmp_exchange__")) d.xattributes ≡ false
    → has_unique_keys d.xattributes ≡ true
    → let (r, d') = exchange_x_attributes path1 path2 d in
      (r ≡ ok tt)
      × ((get_x_attributes path1 n d').0 ≡ ok (bytes_at path2 n d.xattributes))
      × ((get_x_attributes path2 n d').0 ≡ ok (bytes_at path1 n d.xattributes))
unfolding exchange_x_attributes rename_x_attributes get_x_attributes
exchange_x_attributes_swaps path1 path2 n d ne ne1 ne2 free u =
    let tmp = text "__tmp_exchange__" in
    let (b1, b2) = bytes_at-exchanged path1 path2 tmp d.xattributes ne ne1 ne2 free u n in
    rw
      (
        first_unique path1 path2 tmp d.xattributes ne ne1 ne2 free u,
        second_unique path1 path2 tmp d.xattributes ne ne1 ne2 free u,
        third_unique path1 path2 tmp d.xattributes ne ne1 ne2 free u,
      )
      (refl, rw b1 refl, rw b2 refl)
