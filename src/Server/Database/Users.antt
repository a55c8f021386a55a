-- ===== src/Server/Database/Users.antt =====
-- The users of server/src/db.rs. What hashes a password is a parameter, and may fail.
pub mod Edits
pub mod Creation
use remote_file_system.Prelude.{
  ℕ, suc, ◌+◌, ◌%◌, ◌^◌, max, Bool, not, ◌&&◌, ◌||◌, true, false, Option, none, some, List, [], ◌∷◌,
  length, ltb, ◌==◌, if◌then◌else◌,
}
use remote_file_system.Paths.{Text, text}
use remote_file_system.Server.Errors.{DatabaseError, query_error, other}
use remote_file_system.Server.Database.{
  Database, User, Result, ok, err, Query, same_text, delete, update, any,
}
use mathlib.Core.Option.{map}

abbrev pub has_id : ℕ → User → Bool
has_id user_id u = u.user_id == user_id

abbrev pub has_name : Text → User → Bool
has_name username u = same_text u.username username

-- Whether a column's key is among the users; `none` is not asked for.
abbrev pub exists_in : {A : Type 0} → (A → User → Bool) → Option A → List User → Bool
exists_in test none users = false
exists_in test (some a) users = any (test a) users

-- Either count is at most one, by the keys of the table.
unfoldable pub user_exists : Option ℕ → Option Text → Database → Bool
user_exists user_id username d =
    exists_in has_id user_id d.users || exists_in has_name username d.users

unfoldable pub max_uid : List User → ℕ
max_uid [] = 0
max_uid (u ∷ users) = max u.user_id (max_uid users)

-- The count is read as a `u8`, which fails above 255.
unfoldable pub get_new_uid : Database → Result ℕ
get_new_uid d =
    if ltb 255 (length d.users)
    then err (query_error (text "count"))
    else if length d.users == 0
    then ok 1001
    else ok ((max_uid d.users + 1) % 2 ^ 32)

-- The `INSERT` of `create_user`; the identifier and the name are keys.
unfoldable pub insert_user : User → Query (ℕ × ℕ)
insert_user u d =
    if any (has_id u.user_id) d.users || any (has_name u.username) d.users
    then (err (query_error (text "UNIQUE constraint failed")), d)
    else (ok (u.user_id, u.group_id), record d { users = u ∷ d.users })

-- The part of `create_user` after the identifier is chosen.
unfoldable pub create_with_id :
    (Text → Option Text) → Text → Text → Option ℕ → Result ℕ → Query (ℕ × ℕ)
create_with_id hash_password username password group_id (err e) d = (err e, d)
create_with_id hash_password username password group_id (ok uid) d = elim (hash_password password) [
  | none ↦ (err (other (text "Error while hashing the password")), d)
  | some hashed ↦
      insert_user
        (record {
          user_id = uid;
          group_id = elim group_id [ none ↦ uid | some gid ↦ gid ];
          username = username;
          password = hashed;
        })
        d
]

unfoldable pub create_user :
    (Text → Option Text) → Text → Text → Option ℕ → Option ℕ → Query (ℕ × ℕ)
create_user hash_password username password user_id group_id d =
    if user_exists user_id (some username) d
    then (err (query_error (text "User with given username or uid already exists!")), d)
    else create_with_id hash_password username password group_id
        (elim user_id [ none ↦ get_new_uid d | some uid ↦ ok uid ]) d

unfoldable pub first_named : Text → List User → Option User
first_named username [] = none
first_named username (u ∷ users) =
    if has_name username u then some u else first_named username users

unfoldable pub get_user : Text → Database → Option User
get_user username d = first_named username d.users

unfoldable pub delete_user : ℕ → Query (Unit {0})
delete_user user_id d =
    if user_exists (some user_id) none d
    then (err (query_error (text "User does not exist!")), d)
    else (ok tt, record d { users = delete (has_id user_id) d.users })

abbrev pub set_username : ℕ → Text → Database → Database
set_username user_id username d = record d {
  users = update (has_id user_id) (λ u. record u { username = username }) d.users;
}

-- The statement stands twice, each time after the test that the name is free.
unfoldable pub edit_username : ℕ → Text → Query (Unit {0})
edit_username user_id username d =
    if user_exists (some user_id) (some username) d
    then (err (query_error (text "User does not exist!")), d)
    else elim (get_user username d) [
      | some u ↦ (err (query_error (text "Username is already taken!")), d)
      | none ↦ elim (get_user username (set_username user_id username d)) [
        | some u ↦
            (err (query_error (text "Username is already taken!")), set_username user_id username d)
        | none ↦ (ok tt, set_username user_id username (set_username user_id username d))
      ]
    ]

unfoldable pub edit_password : (Text → Option Text) → ℕ → Text → Query (Unit {0})
edit_password hash_password user_id password d =
    if user_exists (some user_id) none d
    then (err (query_error (text "User does not exist!")), d)
    else elim (hash_password password) [
      | none ↦ (err (other (text "Error while hashing the password")), d)
      | some hashed ↦ (
        ok tt,
        record d { users = update (has_id user_id) (λ u. record u { password = hashed }) d.users },
      )
    ]

-- `UPDATE users WHERE … SET …` is no SQL statement, and its execution fails.
unfoldable pub edit_group_id : ℕ → ℕ → Query (Unit {0})
edit_group_id user_id group_id d =
    if user_exists (some user_id) none d
    then (err (query_error (text "syntax error")), d)
    else (ok tt, d)
