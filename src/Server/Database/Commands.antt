-- ===== src/Server/Database/Commands.antt =====
-- The user commands of server/src/commands.rs: each runs on the database and reports an error or
-- nothing. What is printed is left out.
use remote_file_system.Prelude.{
  ℕ, ◌≡◌, Bool, true, false, Option, none, some, Option-cases, inl, inr, List, [], ◌∷◌, arith,
}
use remote_file_system.Paths.{Text, text, Text-discrete}
use remote_file_system.Server.Errors.{DatabaseError, query_error, CommandError, execution_failed}
use remote_file_system.Server.Database.{Database, User, Result, ok, err, Query, any}
use remote_file_system.Server.Database.Users.{
  create_user, get_user, first_named, delete_user, edit_username, edit_password, user_exists,
  has_id,
}

pub data Command : Type 0 where
  user_create : Text → Text → Option ℕ → Option ℕ → Command
  user_change_username : Text → Text → Command
  user_change_password : Text → Text → Command
  user_delete : Text → Command

-- The error of a command, or none.
abbrev pub Report : Type 0
Report = Option CommandError

-- `map_err(|err| CommandError::ExecutionFailed(err.to_string()))?`
abbrev pub reported : {A : Type 0} → Result A × Database → Report × Database
reported (ok a, d) = (none, d)
reported (err e, d) = (some (execution_failed (text "")), d)

-- What is done to the user of a name.
abbrev pub on_user : Text → (User → Query (Unit {0})) → Database → Report × Database
on_user username change d = elim (get_user username d) [
  | none ↦ (some (execution_failed (text "User not found.")), d)
  | some user ↦ reported (change user d)
]

-- `execute_with_db`
unfoldable pub execute : (Text → Option Text) → Command → Database → Report × Database
execute hash_password (user_create username password user_id group_id) d =
    reported (create_user hash_password username password user_id group_id d)
execute hash_password (user_change_username current_username new_username) d =
    on_user current_username (λ u. edit_username u.user_id new_username) d
execute hash_password (user_change_password username new_password) d =
    on_user username (λ u. edit_password hash_password u.user_id new_password) d
execute hash_password (user_delete username) d = on_user username (λ u. delete_user u.user_id) d

-- Every command but the creation of a user.
abbrev pub is_edit : Command → Bool
is_edit (user_create _ _ _ _) = false
is_edit _ = true

abbrev pub is_failure : Report → Bool
is_failure none = false
is_failure (some e) = true

named_exists :
    (username : Text) (users : List User) (u : User)
    → first_named username users ≡ some u
    → any (has_id u.user_id) users ≡ true
unfolding first_named
named_exists username [] u h = ground (arith, h)
named_exists username (v ∷ users) u h = elim (Text-discrete v.username username) [
  | yes e ↦ ground (arith, e, h)
  | no e ↦ ground (arith, e, h, named_exists username users u (ground (arith, e, h)))
]

-- A user who is found counts as existing.
found_exists :
    (username : Text) (name : Option Text) (d : Database) (u : User)
    → get_user username d ≡ some u
    → user_exists (some u.user_id) name d ≡ true
unfolding get_user user_exists
found_exists username name d u h = ground (arith, named_exists username d.users u h)

on_user_fails :
    (username : Text) (change : User → Query (Unit {0})) (d : Database)
    → ((u : User) → get_user username d ≡ some u → (e : DatabaseError) × (change u d ≡ (err e, d)))
    → (is_failure (on_user username change d).0 ≡ true) × ((on_user username change d).1 ≡ d)
on_user_fails username change d fails = elim (Option-cases (get_user username d)) [
  | inl n ↦ (ground (arith, n), ground (arith, n))
  | inr (u, n) ↦ let (e, same) = fails u n in (ground (arith, n, same), ground (arith, n, same))
]

-- As the database is written, every command that renames a user, changes a password or deletes a
-- user reports a failure and changes nothing, whether there is a user of that name or not.
pub execute_edit_fails :
    (hash_password : Text → Option Text) (command : Command) (d : Database)
    → is_edit command ≡ true
    → (is_failure (execute hash_password command d).0 ≡ true)
      × ((execute hash_password command d).1 ≡ d)
unfolding execute edit_username edit_password delete_user
execute_edit_fails hash_password (user_create _ _ _ _) d h = ground (arith, h)
execute_edit_fails hash_password (user_change_username username new_username) d h =
    on_user_fails username (λ u. edit_username u.user_id new_username) d
      (λ u f. (
        query_error (text "User does not exist!"),
        ground (arith, found_exists username (some new_username) d u f),
      ))
execute_edit_fails hash_password (user_change_password username new_password) d h =
    on_user_fails username (λ u. edit_password hash_password u.user_id new_password) d
      (λ u f. (
        query_error (text "User does not exist!"),
        ground (arith, found_exists username none d u f),
      ))
execute_edit_fails hash_password (user_delete username) d h =
    on_user_fails username (λ u. delete_user u.user_id) d
      (λ u f. (
        query_error (text "User does not exist!"),
        ground (arith, found_exists username none d u f),
      ))
