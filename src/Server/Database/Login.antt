-- ===== src/Server/Database/Login.antt =====
-- `authenticate_user` of server/src/db.rs. What checks a password against a hash and what makes a
-- token are parameters; `now` is the clock's reading, in seconds.
use remote_file_system.Prelude.{
  ℕ, ◌≡◌, refl, Bool, true, Option, none, some, Option-cases, Bool-cases, ◌⊎◌, inl, inr, List, [],
  ◌∷◌, arith, if◌then◌else◌,
}
use remote_file_system.Paths.{Text, Text-discrete}
use remote_file_system.Server.Errors.{DatabaseError}
use remote_file_system.Server.Database.{Database, User, Result, ok, err, Query}
use remote_file_system.Server.Database.Tokens.{clean_revoked_token}
use remote_file_system.Server.Database.Users.{get_user, first_named}

-- A login: the result and the database after the user was found.
unfoldable pub login_as :
    (Text → Text → Bool) → (ℕ → ℕ → Result Text) → ℕ → Text → User → Query (Option Text)
login_as verify_password generate_token now password user d =
    if verify_password password user.password
    then elim (generate_token user.user_id user.group_id) [
      | err e ↦ (err e, d)
      | ok token ↦ (ok (some token), (clean_revoked_token now d).1)
    ]
    else (ok none, d)

unfoldable pub authenticate_user :
    (Text → Text → Bool) → (ℕ → ℕ → Result Text) → ℕ → Text → Text → Query (Option Text)
authenticate_user verify_password generate_token now username password d =
    elim (get_user username d) [
      | none ↦ (ok none, d)
      | some user ↦ login_as verify_password generate_token now password user d
    ]

pub result-cases :
    {A : Type 0} (r : Result A) → ((a : A) × (r ≡ ok a)) ⊎ ((e : DatabaseError) × (r ≡ err e))
result-cases (ok a) = inl (a, refl)
result-cases (err e) = inr (e, refl)

has_name-first_named :
    (username : Text) (users : List User) (user : User)
    → first_named username users ≡ some user
    → user.username ≡ username
unfolding first_named
has_name-first_named username [] user h = ground arith
has_name-first_named username (u ∷ users) user h = elim (Text-discrete u.username username) [
  | yes e ↦ ground (arith, e, h)
  | no e ↦ has_name-first_named username users user (ground (arith, e, h))
]

get_user_named :
    (username : Text) (d : Database) (user : User)
    → get_user username d ≡ some user
    → user.username ≡ username
unfolding get_user
get_user_named username d user e = has_name-first_named username d.users user e

-- A login that gives a token has found a user of that name, the password has passed against the
-- hash of that user, and the token was made for the identifier and the group of that user.
pub authenticate_user_sound :
    (verify_password : Text → Text → Bool) (generate_token : ℕ → ℕ → Result Text) (now : ℕ)
    (username password token : Text) (d : Database)
    → (authenticate_user verify_password generate_token now username password d).0 ≡ ok (some token)
    → (user : User) × (get_user username d ≡ some user)
      × (user.username ≡ username)
      × (verify_password password user.password ≡ true)
      × (generate_token user.user_id user.group_id ≡ ok token)
unfolding authenticate_user login_as
authenticate_user_sound verify_password generate_token now username password token d h =
    elim (Option-cases (get_user username d)) [
      | inl e ↦ ground (arith, e, h)
      | inr (user, e) ↦ elim (Bool-cases (verify_password password user.password)) [
        | inr v ↦ ground (arith, e, v, h)
        | inl v ↦ elim (result-cases (generate_token user.user_id user.group_id)) [
          | inr (_, g) ↦ ground (arith, e, v, g, h)
          | inl (t, g) ↦ (user, e, get_user_named username d user e, v, ground (arith, e, v, g, h))
        ]
      ]
    ]
