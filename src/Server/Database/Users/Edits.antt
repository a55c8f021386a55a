-- ===== src/Server/Database/Users/Edits.antt =====
-- What the operations that change or delete a user of server/src/db.rs come to.
use remote_file_system.Prelude.{
  ℕ, ◌≡◌, refl, Bool, false, Option, Option-cases, Bool-cases, inl, inr, List, [], ◌∷◌, arith,
}
use remote_file_system.Paths.{Text}
use remote_file_system.Server.Database.{Database, User, Query, delete, update, any}
use remote_file_system.Server.Database.Users.{
  has_id, user_exists, get_user, set_username, delete_user, edit_username, edit_password,
  edit_group_id,
}

delete_unmatched :
    (test : User → Bool) (users : List User) → any test users ≡ false → delete test users ≡ users
delete_unmatched test [] h = refl
delete_unmatched test (u ∷ users) h = ground (arith, delete_unmatched test users)

update_unmatched :
    (test : User → Bool) (set : User → User) (users : List User)
    → any test users ≡ false
    → update test set users ≡ users
update_unmatched test set [] h = refl
update_unmatched test set (u ∷ users) h = ground (arith, update_unmatched test set users)

-- One operation on a user.
pub data Edit : Type 0 where
  deleting : ℕ → Edit
  renaming : ℕ → Text → Edit
  changing_password : ℕ → Text → Edit
  changing_group : ℕ → ℕ → Edit

unfoldable pub run_edit : (Text → Option Text) → Edit → Query (Unit {0})
run_edit hash_password (deleting user_id) = delete_user user_id
run_edit hash_password (renaming user_id username) = edit_username user_id username
run_edit hash_password (changing_password user_id password) =
    edit_password hash_password user_id password
run_edit hash_password (changing_group user_id group_id) = edit_group_id user_id group_id

-- No operation that deletes or edits a user changes the table of users, whether it reports success
-- or not.
run_edit_keeps_users :
    (hash_password : Text → Option Text) (edit : Edit) (d : Database)
    → (run_edit hash_password edit d).1.users ≡ d.users
unfolding run_edit delete_user edit_username edit_password edit_group_id user_exists
run_edit_keeps_users hash_password (deleting user_id) d =
    ground (arith, delete_unmatched (has_id user_id) d.users)
run_edit_keeps_users hash_password (renaming user_id username) d =
    elim (Bool-cases (any (has_id user_id) d.users)) [
      | inl e ↦ ground (arith, e)
      | inr e ↦
          let same =
            update_unmatched (has_id user_id) (λ u. record u { username = username }) d.users e in
          elim (Option-cases (get_user username d)) [
            | inr (u, f) ↦ ground (arith, e, f)
            | inl f ↦ elim (Option-cases (get_user username (set_username user_id username d))) [
              | inr (u, g) ↦ ground (arith, e, f, g, same)
              | inl g ↦ ground (arith, e, f, g, same)
            ]
          ]
    ]
run_edit_keeps_users hash_password (changing_password user_id password) d =
    elim (Option-cases (hash_password password)) [
      | inl e ↦ ground (arith, e)
      | inr (hashed, e) ↦ ground (
        arith,
        e,
        update_unmatched (has_id user_id) (λ u. record u { password = hashed }) d.users,
      )
    ]
run_edit_keeps_users hash_password (changing_group user_id group_id) d = ground arith
