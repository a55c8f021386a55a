-- ===== src/Examples/Database.antt =====
-- The database of server/src/db.rs on small inputs.
use remote_file_system.Prelude.{
  ℕ, zero, suc, ◌+◌, ◌<◌, ◌^◌, ◌≡◌, ◌≢◌, refl, true, false, Option, none, some, List, [], ◌∷◌,
  arith, Bool, ℕ_discrete, if◌then◌else◌,
}
use remote_file_system.Paths.{Text, Text-discrete, text}
use remote_file_system.Server.Database.{Database, User, Result, ok, same_text, any}
use remote_file_system.Server.Database.Xattributes.{
  is_at, is_of, bytes_at, set_x_attributes, get_x_attributes,
}
use remote_file_system.Server.Database.Xattributes.Laws
use remote_file_system.Server.Database.Users.{first_named, get_user, max_uid, has_name}
use remote_file_system.Server.Database.Login
use remote_file_system.Server.Database.Login.{authenticate_user, login_as}
use remote_file_system.Server.Database.Users.Creation
use remote_file_system.Server.Database.Users.Creation.{fresh_uid, new_user}
use remote_file_system.Server.Database.Commands
use remote_file_system.Server.Database.Commands.{execute, user_delete, is_failure}

abbrev file_a : Text
file_a = 97 ∷ []

abbrev file_b : Text
file_b = 98 ∷ []

abbrev tag : Text
tag = 116 ∷ []

abbrev someone : User
someone = record { user_id = 7; group_id = 7; username = 117 ∷ []; password = 112 ∷ [] }

abbrev stored : Database
stored = record {
  users = someone ∷ [];
  revoked_tokens = [];
  xattributes =
      record { path = file_a; name = tag; xattributes = 1 ∷ [] }
      ∷ record { path = file_b; name = tag; xattributes = 2 ∷ [] }
      ∷ [];
}

abbrev hash : Text → Option Text
hash p = some (104 ∷ p)

abbrev temporary : Text
temporary = text "__tmp_exchange__"

get-set_x_attributes_example :
    (get_x_attributes file_a tag (set_x_attributes file_a tag (9 ∷ []) stored).1).0
    ≡ ok (
        if any (is_at file_a tag) stored.xattributes
        then bytes_at file_a tag stored.xattributes
        else some (9 ∷ []))
get-set_x_attributes_example =
    Laws.get-set_x_attributes file_a tag (9 ∷ []) stored (λ e. ground arith)

not_temporary : (c : ℕ) → (c ∷ []) ≢ temporary
unfolding text
not_temporary c e = ground arith

free : any (is_of temporary) stored.xattributes ≡ false
unfolding text
free = ground arith

identifiers_left : max_uid stored.users + 1 < 2 ^ 32
unfolding max_uid
identifiers_left = omega arith

-- Users with the identifiers below a number, each with a name of its own.
unfoldable numbered : ℕ → List User
numbered zero = []
numbered (suc n) =
    record { user_id = n; group_id = n; username = 0 ∷ n ∷ []; password = [] } ∷ numbered n

unnamed : (n : ℕ) → any (has_name (118 ∷ [])) (numbered n) ≡ false
unfolding numbered
unnamed zero = refl
unnamed (suc n) = ground (arith, unnamed n)

abbrev crowded : Database
crowded = record { users = numbered 256; revoked_tokens = []; xattributes = [] }

abbrev checks : Text → Text → Bool
checks password hashed = same_text (104 ∷ password) (104 ∷ hashed)

abbrev issues : ℕ → ℕ → Result Text
issues uid gid = ok (uid ∷ gid ∷ [])

logs_in :
    (authenticate_user checks issues 500 (117 ∷ []) (112 ∷ []) stored).0 ≡ ok (some (7 ∷ 7 ∷ []))
unfolding authenticate_user login_as get_user first_named Text-discrete ℕ_discrete
logs_in = refl

authenticate_user_sound_example :
    (user : User) × (get_user (117 ∷ []) stored ≡ some user)
    × (user.username ≡ 117 ∷ [])
    × (checks (112 ∷ []) user.password ≡ true)
    × (issues user.user_id user.group_id ≡ ok (7 ∷ 7 ∷ []))
authenticate_user_sound_example =
    Login.authenticate_user_sound checks issues 500 (117 ∷ []) (112 ∷ []) (7 ∷ 7 ∷ []) stored
      logs_in

abbrev no_hash : Text → Option Text
no_hash p = none

execute_edit_fails_example :
    (is_failure (execute no_hash (user_delete (117 ∷ [])) stored).0 ≡ true)
    × ((execute no_hash (user_delete (117 ∷ [])) stored).1 ≡ stored)
execute_edit_fails_example =
    Commands.execute_edit_fails no_hash (user_delete (117 ∷ [])) stored refl

new : Creation.AllNew hash (112 ∷ []) ((118 ∷ []) ∷ []) crowded
unfolding Creation.AllNew
new = (unnamed 256, tt)
