-- ===== src/Server/Database/Tokens/Revocation.antt =====
-- A token that was revoked is not accepted again: server/src/db.rs.
use remote_file_system.Prelude.{
  ℕ, ◌≤◌, ◌<◌, ◌≡◌, ◌≢◌, refl, Bool, not, ◌&&◌, true, false, Option, some, Option-cases, Bool-cases,
  inl, inr, List, [], ◌∷◌, ◌==◌, arith, length,
}
use remote_file_system.Paths.{Text}
use remote_file_system.Server.Database.{Database, RevokedToken, ok, select, delete, any}
use remote_file_system.Server.Database.Tokens.{
  is_expired, Claims, AuthenticatedUser, is_for, insert_revoked_token, clean_revoked_token,
  is_token_revoked, user_of, verify_token,
}

-- Whether no two rows have the same user and token, the primary key of the table.
abbrev pub has_unique_tokens : List RevokedToken → Bool
has_unique_tokens [] = true
has_unique_tokens (t ∷ ts) = not (any (is_for t.user_id t.token_id) ts) && has_unique_tokens ts

select-none :
    (u : ℕ) (t : Text) (rows : List RevokedToken)
    → any (is_for u t) rows ≡ false
    → length (select (is_for u t) rows) ≡ 0
select-none u t [] h = refl
select-none u t (r ∷ rows) h = ground (arith, select-none u t rows)

-- In a table with unique keys a token that does not count as revoked has no row.
none_revoked :
    (u : ℕ) (t : Text) (rows : List RevokedToken)
    → has_unique_tokens rows ≡ true
    → (length (select (is_for u t) rows) == 1) ≡ false
    → any (is_for u t) rows ≡ false
none_revoked u t [] k h = refl
none_revoked u t (r ∷ rows) k h = ground (arith, none_revoked u t rows, select-none u t rows)

any-delete :
    (u : ℕ) (t : Text) (now : ℕ) (rows : List RevokedToken)
    → any (is_for u t) rows ≡ false
    → any (is_for u t) (delete (λ r. r.expiration_time == now) rows) ≡ false
any-delete u t now [] h = refl
any-delete u t now (r ∷ rows) h = ground (arith, any-delete u t now rows)

-- `clean_revoked_token` at several times, one after another.
unfoldable pub clean_at : List ℕ → Database → Database
clean_at [] d = d
clean_at (now ∷ times) d = clean_at times (clean_revoked_token now d).1

-- All times are at or before the last one.
unfoldable pub AllUpTo : ℕ → List ℕ → Type 0
AllUpTo last [] = Unit {0}
AllUpTo last (now ∷ times) = (now ≤ last) × AllUpTo last times

abbrev row_of : AuthenticatedUser → RevokedToken
row_of user = record {
  user_id = user.user_id;
  token_id = user.token_id;
  expiration_time = user.expiration_time;
}

stays_revoked :
    (user : AuthenticatedUser) (last : ℕ) (times : List ℕ) (rest : List RevokedToken) (d : Database)
    → d.revoked_tokens ≡ row_of user ∷ rest
    → any (is_for user.user_id user.token_id) rest ≡ false
    → last < user.expiration_time
    → AllUpTo last times
    → is_token_revoked user.user_id user.token_id (clean_at times d) ≡ true
unfolding clean_at AllUpTo is_token_revoked clean_revoked_token
stays_revoked user last [] rest d e h l a =
    rw e (ground (arith, select-none user.user_id user.token_id rest h))
stays_revoked user last (now ∷ times) rest d e h l a =
    stays_revoked user last times (delete (λ r. r.expiration_time == now) rest)
      (clean_revoked_token now d).1 (rw e (ground arith))
      (any-delete user.user_id user.token_id now rest h) l a.1

accepted :
    (decode_claims : Text → Option Claims) (now : ℕ) (token : Text) (user : AuthenticatedUser)
    (d : Database)
    → verify_token decode_claims now token d ≡ ok user
    → (c : Claims) × (decode_claims token ≡ some c)
      × (user ≡ user_of c)
      × (is_token_revoked c.user_id c.token_id d ≡ false)
unfolding verify_token
accepted decode_claims now token user d v = elim (Option-cases (decode_claims token)) [
  | inl e ↦ ground (arith, e, v)
  | inr (c, e) ↦ elim (Bool-cases (is_expired now c.exp)) [
    | inl old ↦ ground (arith, e, v, old)
    | inr new ↦ elim (Bool-cases (is_token_revoked c.user_id c.token_id d)) [
      | inl r ↦ ground (arith, e, v, new, r)
      | inr r ↦ (c, e, ground (arith, e, v, new, r), r)
    ]
  ]
]

inserted :
    (user : AuthenticatedUser) (d : Database)
    → any (is_for user.user_id user.token_id) d.revoked_tokens ≡ false
    → (insert_revoked_token user d).1.revoked_tokens ≡ row_of user ∷ d.revoked_tokens
unfolding insert_revoked_token
inserted user d h = rw h refl

unused :
    (c : Claims) (d : Database)
    → has_unique_tokens d.revoked_tokens ≡ true
    → is_token_revoked c.user_id c.token_id d ≡ false
    → any (is_for c.user_id c.token_id) d.revoked_tokens ≡ false
unfolding is_token_revoked
unused c d k r = none_revoked c.user_id c.token_id d.revoked_tokens k r

refused_after :
    (decode_claims : Text → Option Claims) (later : ℕ) (token : Text) (times : List ℕ)
    (again : AuthenticatedUser) (c : Claims) (d : Database)
    → has_unique_tokens d.revoked_tokens ≡ true
    → decode_claims token ≡ some c
    → is_token_revoked c.user_id c.token_id d ≡ false
    → AllUpTo later times
    → verify_token decode_claims later token (clean_at times (insert_revoked_token (user_of c) d).1)
      ≢ ok again
unfolding verify_token
refused_after decode_claims later token times again c d k e r a h =
    elim (Bool-cases (is_expired later c.exp)) [
      | inl old ↦ ground (arith, e, h, old)
      | inr new ↦
          let none_yet = unused c d k r in
          let stays =
            stays_revoked (user_of c) later times d.revoked_tokens
              (insert_revoked_token (user_of c) d).1 (inserted (user_of c) d none_yet) none_yet
              (ground (arith, new)) a in
          ground (arith, e, h, new, stays)
    ]

-- In a table with unique keys: a token that was accepted and then revoked, as a logout does, is not
-- accepted at any later time, whichever cleanings of the table took place up to that time.
pub verify_token-insert_revoked_token :
    (decode_claims : Text → Option Claims) (now later : ℕ) (token : Text) (times : List ℕ)
    (user again : AuthenticatedUser) (d : Database)
    → has_unique_tokens d.revoked_tokens ≡ true
    → verify_token decode_claims now token d ≡ ok user
    → AllUpTo later times
    → verify_token decode_claims later token (clean_at times (insert_revoked_token user d).1)
      ≢ ok again
verify_token-insert_revoked_token decode_claims now later token times user again d k v a =
    let (c, e, same, r) = accepted decode_claims now token user d v in
    rw same (refused_after decode_claims later token times again c d k e r a)
