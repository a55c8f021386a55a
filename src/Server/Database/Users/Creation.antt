-- ===== src/Server/Database/Users/Creation.antt =====
-- `create_user` of server/src/db.rs.
use remote_file_system.Prelude.{
  ℕ, ◌+◌, ◌≤◌, ◌<◌, ◌%◌, ◌^◌, ◌≡◌, refl, true, false, Option, none, some, Bool-cases, inl, inr,
  List, [], ◌∷◌, arith, length, ◌==◌, if◌then◌else◌,
}
use remote_file_system.Paths.{Text}
use remote_file_system.Server.Database.{Database, User, ok, any}
use remote_file_system.Server.Database.Users.{
  has_id, has_name, user_exists, max_uid, get_new_uid, insert_user, create_with_id, create_user,
  get_user, first_named,
}

above_max_uid : (users : List User) (n : ℕ) → max_uid users < n → any (has_id n) users ≡ false
unfolding max_uid
above_max_uid [] n h = refl
above_max_uid (u ∷ users) n h = ground (arith, above_max_uid users n)

-- The identifier that a new user gets where none is asked for.
abbrev pub fresh_uid : Database → ℕ
fresh_uid d = if length d.users == 0 then 1001 else max_uid d.users + 1

-- The row of a new user, whose group is its own.
unfoldable pub new_user : ℕ → Text → Text → User
new_user uid username hashed = record {
  user_id = uid;
  group_id = uid;
  username = username;
  password = hashed;
}

get_new_uid_fresh :
    (d : Database)
    → length d.users ≤ 255
    → max_uid d.users + 1 < 2 ^ 32
    → (get_new_uid d ≡ ok (fresh_uid d)) × (any (has_id (fresh_uid d)) d.users ≡ false)
unfolding get_new_uid
get_new_uid_fresh d few left = elim (Bool-cases (length d.users == 0)) [
  | inl z ↦ (ground (arith, z), rw z (none_has_id d.users 1001 z))
  | inr z ↦
      let unwrapped : (max_uid d.users + 1) % 2 ^ 32 ≡ max_uid d.users + 1 = grind arith in
      (
        ground (arith, z, unwrapped),
        rw z (above_max_uid d.users (max_uid d.users + 1) (omega arith)),
      )
]
  where
    none_has_id :
        (users : List User) (n : ℕ) → (length users == 0) ≡ true → any (has_id n) users ≡ false
    none_has_id [] n h = refl
    none_has_id (u ∷ users) n h = ground arith

created :
    (hash_password : Text → Option Text) (username password hashed : Text) (uid : ℕ) (d : Database)
    → hash_password password ≡ some hashed
    → any (has_name username) d.users ≡ false
    → any (has_id uid) d.users ≡ false
    → create_with_id hash_password username password none (ok uid) d
      ≡ (ok (uid, uid), record d { users = new_user uid username hashed ∷ d.users })
unfolding create_with_id insert_user new_user
created hash_password username password hashed uid d e free new = ground arith

get_user-new :
    (uid : ℕ) (username hashed : Text) (d : Database)
    → get_user username (record d { users = new_user uid username hashed ∷ d.users })
      ≡ some (new_user uid username hashed)
unfolding get_user first_named new_user
get_user-new uid username hashed d = ground arith

-- While there are at most 255 users and identifiers are left, a user with a new name and a password
-- that can be hashed is created: it gets the fresh identifier, which is also its group, and is
-- found by its name afterwards.
pub create_user_fresh :
    (hash_password : Text → Option Text) (username password hashed : Text) (d : Database)
    → hash_password password ≡ some hashed
    → any (has_name username) d.users ≡ false
    → length d.users ≤ 255
    → max_uid d.users + 1 < 2 ^ 32
    → let (r, d') = create_user hash_password username password none none d in
      (r ≡ ok (fresh_uid d, fresh_uid d))
      × (get_user username d' ≡ some (new_user (fresh_uid d) username hashed))
unfolding create_user user_exists
create_user_fresh hash_password username password hashed d e free few left =
    let (uid, new) = get_new_uid_fresh d few left in
    rw (free, uid, created hash_password username password hashed (fresh_uid d) d e free new)
      (refl, get_user-new (fresh_uid d) username hashed d)

module _ (hash_password : Text → Option Text) (password : Text) where
  -- A user for each name, none of which asks for an identifier.
  unfoldable pub create_all : List Text → Database → Database
  create_all [] d = d
  create_all (n ∷ names) d = create_all names (create_user hash_password n password none none d).1

  -- Each name is new when its turn comes.
  unfoldable pub AllNew : List Text → Database → Type 0
  AllNew [] d = Unit {0}
  AllNew (n ∷ names) d =
      (any (has_name n) d.users ≡ false)
      × AllNew names (create_user hash_password n password none none d).1
