-- ===== src/Client/Startup/Attempts.antt =====
-- The attempts of `perform_login` in client/src/lib.rs.
use mathlib.Core.Path.{subst}
use remote_file_system.Prelude.{
  ℕ, ◌+◌, ◌<◌, zero, suc, ◌≡◌, refl, sym, ap, ◌∙◌, inl, inr, none, some, Option-cases, arith,
}
use remote_file_system.Paths.{Text}
use remote_file_system.Action.{Outcome, ok, err, panicked}
use remote_file_system.Client.Errors.{NetworkError}
use remote_file_system.Client.Network.{Reply, done, failed}
use remote_file_system.Client.Remote.{Http, RemoteClient, login, keep_token}
use remote_file_system.Client.Config.{RfsConfig}
use remote_file_system.Client.Startup.{
  Terminal, RfsClientError, credentials, login_from, perform_login, or_again,
}

module _ (http : Http) where
  keep_token-failed :
      (r : Reply Text) (c c1 : RemoteClient http) (e : NetworkError)
      → keep_token http r c ≡ (failed e, c1)
      → c1 ≡ c
  keep_token-failed (done t) c c1 e h = ground (arith, h)
  keep_token-failed (failed e1) c c1 e h = ground (arith, h)

  keep_token-done :
      (r : Reply Text) (c c1 : RemoteClient http) (t : Text)
      → keep_token http r c ≡ (done t, c1)
      → c1.token_store ≡ some t
  keep_token-done (done t1) c c1 t h = ground (arith, h)
  keep_token-done (failed e1) c c1 t h = ground (arith, h)

  login-failed :
      (u p : Text) (c c1 : RemoteClient http) (e : NetworkError)
      → login http u p c ≡ (failed e, c1)
      → c1.token_store ≡ c.token_store
  unfolding login
  login-failed u p c c1 e h = ap (λ x. x.token_store) (keep_token-failed _ _ c1 e h)

  login-done :
      (u p : Text) (c c1 : RemoteClient http) (t : Text)
      → login http u p c ≡ (done t, c1)
      → c1.token_store ≡ some t
  unfolding login
  login-done u p c c1 t h = keep_token-done _ _ c1 t h

  module _ (terminal : Terminal) (config : RfsConfig) where
    -- An attempt that is answered so.
    abbrev pub Attempt : ℕ → Reply Text → RemoteClient http → RemoteClient http → Type 0
    Attempt i r c c1 =
        (u : Text) × (p : Text) × (credentials terminal config i ≡ some (u, p))
        × (login http u p c ≡ (r, c1))

    -- The first attempts, so many, have failed.
    abbrev pub FailedTimes : ℕ → RemoteClient http → RemoteClient http → Type 0
    FailedTimes zero c c1 = c1 ≡ c
    FailedTimes (suc k) c c1 =
        (c0 : RemoteClient http) × FailedTimes k c c0
        × ((e : NetworkError) × Attempt k (failed e) c0 c1)

    FailedTimes-token :
        (k : ℕ) (c c1 : RemoteClient http) → FailedTimes k c c1 → c1.token_store ≡ c.token_store
    FailedTimes-token zero c c1 h = ap (λ x. x.token_store) h
    FailedTimes-token (suc k) c c1 (c0, before, (e, (u, p, named, answered))) =
        login-failed u p c0 c1 e answered ∙ FailedTimes-token k c c0 before

    -- What the result of the login says of the attempts.
    abbrev pub LoginResult :
        Outcome RfsClientError Text → RemoteClient http → RemoteClient http → Type 0
    LoginResult (ok t) c c1 =
        (c1.token_store ≡ some t)
        × ((k : ℕ) × (k < 3)
            × ((c0 : RemoteClient http) × FailedTimes k c c0 × Attempt k (done t) c0 c1))
    LoginResult (err e) c c1 = (c1.token_store ≡ c.token_store) × FailedTimes 3 c c1
    LoginResult panicked c c1 =
        (c1.token_store ≡ c.token_store)
        × ((k : ℕ) × (k < 3) × FailedTimes k c c1 × (credentials terminal config k ≡ none))

    or_again_lem :
        (i : ℕ) (c c0 : RemoteClient http) (u p : Text)
        (again : RemoteClient http → Outcome RfsClientError Text × RemoteClient http)
        → i < 3
        → FailedTimes i c c0
        → credentials terminal config i ≡ some (u, p)
        → ((c1 : RemoteClient http)
            → FailedTimes (suc i) c c1
            → LoginResult (again c1).0 c (again c1).1)
        → (answer : Reply Text × RemoteClient http) → login http u p c0 ≡ answer
        → LoginResult (or_again answer again).0 c (or_again answer again).1
    or_again_lem i c c0 u p again below before named rest (done t, c1) answered =
        (login-done u p c0 c1 t answered, (i, below, (c0, before, (u, p, named, answered))))
    or_again_lem i c c0 u p again below before named rest (failed e, c1) answered =
        rest c1 (c0, before, (e, (u, p, named, answered)))

    login_from_lem :
        (n i : ℕ) (c c0 : RemoteClient http)
        → n + i ≡ 3
        → FailedTimes i c c0
        → LoginResult
            (login_from http terminal config n i c0).0
            c
            (login_from http terminal config n i c0).1
    unfolding login_from
    login_from_lem zero i c c0 h before = (
      FailedTimes-token i c c0 before,
      subst (λ k. FailedTimes k c c0) (let last : i ≡ 3 = omega (arith, h) in last) before,
    )
    login_from_lem (suc n) i c c0 h before = elim (Option-cases (credentials terminal config i)) [
      | inl unread ↦
          let stopped : login_from http terminal config (suc n) i c0 ≡ (panicked, c0) =
            rw (unread, login_from) refl in
          subst (λ x. LoginResult x.0 c x.1) (sym stopped)
            (FailedTimes-token i c c0 before, (i, omega (arith, h), before, unread))
      | inr ((u, p), named) ↦
          let again = login_from http terminal config n (suc i) in
          let tried : login_from http terminal config (suc n) i c0
              ≡ or_again (login http u p c0) again =
            rw (named, login_from) refl in
          subst (λ x. LoginResult x.0 c x.1) (sym tried)
            (or_again_lem i c c0 u p again (omega (arith, h)) before named
              (λ c1 failing. login_from_lem n (suc i) c c1 (omega (arith, h)) failing)
              (login http u p c0) refl)
    ]

    -- At most three logins are tried, and none after one that succeeds: a token is that of the
    -- first attempt that is not refused, and is in the store; an error stands for three that are refused,
    -- and a panic for credentials that cannot be read after fewer. In both the store is as it was.
    pub perform_login_lem :
        (c : RemoteClient http)
        → let (r, c1) = perform_login http terminal config c in LoginResult r c c1
    unfolding perform_login
    perform_login_lem c = login_from_lem 3 0 c c refl refl
