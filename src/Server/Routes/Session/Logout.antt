-- ===== src/Server/Routes/Session/Logout.antt =====
-- Requests without a token that counts, and after a logout: server/src/middleware.rs.
use remote_file_system.Prelude.{
  ℕ, ◌≡◌, ◌≢◌, refl, sym, ap, true, Option, some, Option-cases, Bool-cases, ◌⊎◌, inl, inr, List, [],
  ◌∷◌, ◌++◌, ◌∙◌, ◌==◌, arith,
}
use remote_file_system.Paths.{Text, text}
use remote_file_system.Server.Errors.{ApiError, unauthorized}
use remote_file_system.Action.{ok, err}
use remote_file_system.Server.Disk.{Disk}
use remote_file_system.Server.Storage.{FileSystem}
use remote_file_system.Server.Database.{ok as row}
use remote_file_system.Server.Database.Login.{result-cases}
use remote_file_system.Server.Database.Tokens.{
  AuthenticatedUser, Claims, insert_revoked_token, verify_token,
}
use remote_file_system.Server.Database.Tokens.Revocation.{
  has_unique_tokens, clean_at, AllUpTo, verify_token-insert_revoked_token,
}
use remote_file_system.Server.Requests.{Request, logout_request, Body}
use remote_file_system.Server.Routes.{State}
use remote_file_system.Server.Routes.Handlers.{handle, logout}
use remote_file_system.Server.Routes.Session.{
  Header, missing, unreadable, header, after_prefix, token_of_header, with_token, auth_middleware,
}

prefixed : (p t r : Text) → after_prefix p t ≡ some r → t ≡ p ++ r
unfolding after_prefix
prefixed [] t r h = ground (arith, h)
prefixed (c ∷ p) [] r h = ground (arith, h)
prefixed (c ∷ p) (d ∷ t) r h = elim (Bool-cases (d == c)) [
  | inl e ↦ ground (arith, e, h, prefixed p t r)
  | inr e ↦ ground (arith, e, h)
]

header-cases :
    (h : Header)
    → ((e : ApiError) × (token_of_header h ≡ err e))
      ⊎ ((token : Text) × (token_of_header h ≡ ok token) × (h ≡ header (text "Bearer " ++ token)))
unfolding token_of_header
header-cases missing = inl (_, refl)
header-cases unreadable = inl (_, refl)
header-cases (header t) = elim (Option-cases (after_prefix (text "Bearer ") t)) [
  | inl n ↦ inl (unauthorized (text "Invalid Token Format"), ground (arith, n))
  | inr (token, n) ↦ inr (token, ground (arith, n), ap header (prefixed (text "Bearer ") t token n))
]

module _ (disk : Disk) (fs : FileSystem) (decode_claims : Text → Option Claims) where
  -- A request is refused with an error and changes neither the disk nor the database, or its header
  -- is `Bearer ` and a token that is accepted at that time, and it is handled for the user of that
  -- token.
  pub auth_middleware_sound :
      (now : ℕ) (h : Header) (request : Request) (s : State disk)
      → ((e : ApiError) × (auth_middleware disk fs decode_claims now h request s ≡ (err e, s)))
        ⊎ ((token : Text) × (user : AuthenticatedUser) × (h ≡ header (text "Bearer " ++ token))
            × (verify_token decode_claims now token s.database ≡ row user)
            × (auth_middleware disk fs decode_claims now h request s
                ≡ handle disk fs user request s))
  unfolding auth_middleware with_token
  auth_middleware_sound now h request s = elim (header-cases h) [
    | inl (e, t) ↦ inl (e, ground (arith, t))
    | inr (token, t, shape) ↦
        elim (result-cases (verify_token decode_claims now token s.database)) [
          | inr (e, v) ↦ inl (unauthorized (text "Invalid or expired token"), ground (arith, t, v))
          | inl (user, v) ↦ inr (token, user, shape, v, ground (arith, t, v))
        ]
  ]

  handled :
      (now : ℕ) (h : Header) (request : Request) (s : State disk) (token : Text)
      → token_of_header h ≡ ok token
      → auth_middleware disk fs decode_claims now h request s
        ≡ with_token disk fs decode_claims now token request s
  unfolding auth_middleware
  handled now h request s token t = ground (arith, t)

  turned_away :
      (now : ℕ) (h : Header) (request : Request) (s : State disk) (e : ApiError)
      → token_of_header h ≡ err e
      → (auth_middleware disk fs decode_claims now h request s).0 ≡ err e
  unfolding auth_middleware
  turned_away now h request s e t = ground (arith, t)

  refused :
      (now : ℕ) (token : Text) (request : Request) (s : State disk)
      → ((user : AuthenticatedUser) → verify_token decode_claims now token s.database ≢ row user)
      → with_token disk fs decode_claims now token request s
        ≡ (err (unauthorized (text "Invalid or expired token")), s)
  unfolding with_token
  refused now token request s never =
      elim (result-cases (verify_token decode_claims now token s.database)) [
        | inl (user, v) ↦ elim (never user v) [ ]
        | inr (e, v) ↦ ground (arith, v)
      ]

  logged_out :
      (now : ℕ) (token : Text) (s : State disk) (b : Body)
      → (with_token disk fs decode_claims now token logout_request s).0 ≡ ok b
      → (user : AuthenticatedUser) × (verify_token decode_claims now token s.database ≡ row user)
        × ((with_token disk fs decode_claims now token logout_request s).1.database
            ≡ (insert_revoked_token user s.database).1)
  unfolding with_token handle logout
  logged_out now token s b h =
      elim (result-cases (verify_token decode_claims now token s.database)) [
        | inr (e, v) ↦ ground (arith, v, h)
        | inl (user, v) ↦ elim (result-cases (insert_revoked_token user s.database).0) [
          | inl (_, q) ↦ (user, v, ground (arith, v, q))
          | inr (e, q) ↦ ground (arith, v, q, h)
        ]
      ]

  -- In a table of revoked tokens with unique keys: after a logout that is answered with success,
  -- every request with the same header is answered with `Unauthorized` and changes nothing, at any
  -- later time, whatever the disk has become and whichever cleanings of the table took place up to
  -- that time.
  pub logout_ends_session :
      (now later : ℕ) (h : Header) (s : State disk) (b : Body) (times : List ℕ) (request : Request)
      (w : disk.World)
      → has_unique_tokens s.database.revoked_tokens ≡ true
      → (auth_middleware disk fs decode_claims now h logout_request s).0 ≡ ok b
      → AllUpTo later times
      → auth_middleware disk fs decode_claims later h request (record {
        world = w;
        database =
            clean_at times
              (auth_middleware disk fs decode_claims now h logout_request s).1.database;
      })
        ≡ (
          err (unauthorized (text "Invalid or expired token")),
          record {
            world = w;
            database =
                clean_at times
                  (auth_middleware disk fs decode_claims now h logout_request s).1.database;
          },
        )
  logout_ends_session now later h s b times request w k o a = elim (header-cases h) [
    | inl (e, t) ↦ ground (arith, o, turned_away now h logout_request s e t)
    | inr (token, t, shape) ↦
        let same = handled now h logout_request s token t in
        let (user, v, d) = logged_out now token s b (ap (λ r. r.0) (sym same) ∙ o) in
        handled later h request _ token t
        ∙ refused later token request _ (λ again e.
          verify_token-insert_revoked_token decode_claims now later token times user again
            s.database k v a
            (ap (λ x. verify_token decode_claims later token (clean_at times x))
                (sym d ∙ sym (ap (λ r. r.1.database) same))
              ∙ e))
  ]
