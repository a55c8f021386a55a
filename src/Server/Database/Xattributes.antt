-- ===== src/Server/Database/Xattributes.antt =====
-- The extended attributes in the database: server/src/db.rs.
pub mod Laws
use remote_file_system.Prelude.{
  ℕ, Bool, not, ◌&&◌, true, false, Option, none, some, List, [], ◌∷◌, map, if◌then◌else◌,
}
use remote_file_system.Paths.{Text, text}
use remote_file_system.Server.Errors.{query_error}
use remote_file_system.Server.Database.{
  Database, XattributeRow, Result, ok, err, Query, same_text, select, delete, update, any,
}

-- `path = ? AND name = ?`
abbrev pub is_at : Text → Text → XattributeRow → Bool
is_at path name r = same_text r.path path && same_text r.name name

-- `path = ?`
abbrev pub is_of : Text → XattributeRow → Bool
is_of path r = same_text r.path path

abbrev pub Rows : Type 0
Rows = List XattributeRow

-- Whether no two rows have the same path and name, the primary key of the table.
abbrev pub has_unique_keys : Rows → Bool
has_unique_keys [] = true
has_unique_keys (r ∷ rs) = not (any (is_at r.path r.name) rs) && has_unique_keys rs

unfoldable pub set_rows : Text → Text → List ℕ → Rows → Rows
set_rows path name bytes rows =
    if any (is_at path name) rows
    then update (is_at name path) (λ r. record r { xattributes = bytes }) rows
    else record { path = path; name = name; xattributes = bytes } ∷ rows

unfoldable pub set_x_attributes : Text → Text → List ℕ → Query (Unit {0})
set_x_attributes path name bytes d =
    (ok tt, record d { xattributes = set_rows path name bytes d.xattributes })

unfoldable pub remove_all_x_attributes : Text → Query (Unit {0})
remove_all_x_attributes path d =
    (ok tt, record d { xattributes = delete (is_of path) d.xattributes })

unfoldable pub remove_x_attributes : Text → Text → Query (Unit {0})
remove_x_attributes path name d =
    (ok tt, record d { xattributes = delete (is_at path name) d.xattributes })

unfoldable pub list_x_attributes : Text → Query (List Text)
list_x_attributes path d = (ok (map (λ r. r.name) (select (is_of path) d.xattributes)), d)

-- The bytes of the first row at the key.
unfoldable pub bytes_at : Text → Text → Rows → Option (List ℕ)
bytes_at path name [] = none
bytes_at path name (r ∷ rs) =
    if is_at path name r then some r.xattributes else bytes_at path name rs

unfoldable pub get_x_attributes : Text → Text → Query (Option (List ℕ))
get_x_attributes path name d = (ok (bytes_at path name d.xattributes), d)

-- `UPDATE xattributes SET path = ? WHERE path = ?`, which breaks the key where the new path has a
-- row of the same name.
abbrev pub moved : Text → Text → Rows → Rows
moved old_path new_path = update (is_of old_path) (λ r. record r { path = new_path })

unfoldable pub rename_x_attributes : Text → Text → Query (Unit {0})
rename_x_attributes old_path new_path d =
    if has_unique_keys (moved old_path new_path d.xattributes)
    then (ok tt, record d { xattributes = moved old_path new_path d.xattributes })
    else (err (query_error (text "UNIQUE constraint failed")), d)

-- One statement after another, up to the first that fails.
abbrev pub after : Result (Unit {0}) × Database → Query (Unit {0}) → Result (Unit {0}) × Database
after (ok tt, d) q = q d
after (err e, d) q = (err e, d)

unfoldable pub exchange_x_attributes : Text → Text → Query (Unit {0})
exchange_x_attributes path1 path2 d =
    after
      (after (rename_x_attributes path1 (text "__tmp_exchange__") d)
        (rename_x_attributes path2 path1))
      (rename_x_attributes (text "__tmp_exchange__") path2)
