-- ===== src/Server/Database/Tokens.antt =====
-- The tokens of server/src/db.rs. What signs and decodes a token is a parameter; so is the clock,
-- in seconds.
pub mod Revocation
use remote_file_system.Prelude.{
  ℕ, ◌+◌, ◌^◌, ◌||◌, ◌≤◌, ◌≡◌, refl, Bool, ◌&&◌, true, false, Option, none, some, Option-cases,
  Bool-cases, inl, inr, List, [], ◌∷◌, leb, ◌==◌, arith, length, if◌then◌else◌,
}
use remote_file_system.Paths.{Text, Text-discrete, text}
use remote_file_system.Server.Errors.{DatabaseError, query_error, other}
use remote_file_system.Server.Database.{
  Database, RevokedToken, Result, ok, err, Query, same_text, select, delete, any,
}

pub record Claims : Type 0 where
  pub user_id : ℕ
  pub group_id : ℕ
  pub token_id : Text
  pub exp : ℕ

pub record AuthenticatedUser : Type 0 where
  pub user_id : ℕ
  pub group_id : ℕ
  pub token_id : Text
  pub expiration_time : ℕ

-- `user_id = ? AND token_id = ?`
abbrev pub is_for : ℕ → Text → RevokedToken → Bool
is_for user_id token_id t = t.user_id == user_id && same_text t.token_id token_id

-- The key of the table is the user and the token.
unfoldable pub insert_revoked_token : AuthenticatedUser → Query (Unit {0})
insert_revoked_token user d =
    if any (is_for user.user_id user.token_id) d.revoked_tokens
    then (err (query_error (text "Error inserting revoked token")), d)
    else (
      ok tt,
      record d {
        revoked_tokens =
            record {
              user_id = user.user_id;
              token_id = user.token_id;
              expiration_time = user.expiration_time;
            }
            ∷ d.revoked_tokens;
      },
    )

unfoldable pub clean_revoked_token : ℕ → Query (Unit {0})
clean_revoked_token now d =
    (ok tt, record d { revoked_tokens = delete (λ t. t.expiration_time == now) d.revoked_tokens })

unfoldable pub is_token_revoked : ℕ → Text → Database → Bool
is_token_revoked user_id token_id d =
    length (select (is_for user_id token_id) d.revoked_tokens) == 1

abbrev pub user_of : Claims → AuthenticatedUser
user_of c = record {
  user_id = c.user_id;
  group_id = c.group_id;
  token_id = c.token_id;
  expiration_time = c.exp;
}

-- `now >= exp as i64`: a time from 2 ^ 63 on is negative as an `i64`.
abbrev pub is_expired : ℕ → ℕ → Bool
is_expired now exp = leb (2 ^ 63) exp || leb exp now

-- `decode_claims` is `jsonwebtoken::decode` with the key of the database.
unfoldable pub verify_token :
    (Text → Option Claims) → ℕ → Text → Database → Result AuthenticatedUser
verify_token decode_claims now token d = elim (decode_claims token) [
  | none ↦ err (other (text "Token is invalid."))
  | some c ↦
      if is_expired now c.exp
      then err (other (text "Token is expired."))
      else if is_token_revoked c.user_id c.token_id d
      then err (other (text "Token has been revoked."))
      else ok (user_of c)
]
