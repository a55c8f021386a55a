-- ===== src/Client/Gui/Session/Tokens.antt =====
-- The logins and mounts of the window, and the token of the client: client/src/gui/logic.rs.
use remote_file_system.Prelude.{
  ◌≡◌, refl, ◌∙◌, Bool, true, false, not, ◌&&◌, ◌||◌, Bool-cases, Option, none, some, inl, inr,
  List, [], ◌∷◌, arith,
}
use remote_file_system.Paths.{Text, FilePath}
use remote_file_system.Client.Remote.{Http, RemoteClient, health_check, login, logout, request}
use remote_file_system.Client.Gui.{Gui, load_config}
use remote_file_system.Client.Gui.Edits.{
  on_change_string_property, on_change_bool_property, on_change_int_property, on_restore_default,
  checked, Checked, changed, refused, change_int,
}
use remote_file_system.Client.Gui.Edits.Limits.{
  Edit, edit, editing_string, editing_bool, editing_int, restoring,
}
use remote_file_system.Client.Gui.Session.{
  Session, Event, retry, log_in, log_out, mount, crash, unmount, change, is_done, check_server,
  on_login, on_logout, on_mount, on_crash, on_unmount, handle, handle_all, is_logged_in,
}

abbrev pub has_token : Option Text → Bool
has_token none = false
has_token (some t) = true

module _ (http : Http) where
  -- Where the user counts as logged in there is a token, and where the file system counts as mounted
  -- there is a daemon to stop it.
  pub record IsSound (s : Session http) : Type 0 where
    pub token : not (is_logged_in s.gui.window.status) || has_token s.client.token_store ≡ true
    pub daemon : not s.gui.window.fs_is_active || s.gui.daemon ≡ true

  health_check-token : (c : RemoteClient http) → (health_check http c).1.token_store ≡ c.token_store
  unfolding health_check
  health_check-token c = refl

  login-token :
      (user pass : Text) (c : RemoteClient http)
      → (is_done (login http user pass c).0 ≡ true)
      → has_token (login http user pass c).1.token_store ≡ true
  unfolding login
  login-token user pass c h = ground (arith, h)

  login_refused-token :
      (user pass : Text) (c : RemoteClient http)
      → (is_done (login http user pass c).0 ≡ false)
      → (login http user pass c).1.token_store ≡ c.token_store
  unfolding login
  login_refused-token user pass c h = ground (arith, h)

  logout_done-token :
      (c : RemoteClient http)
      → (is_done (logout http c).0 ≡ true)
      → (logout http c).1.token_store ≡ none
  unfolding logout request
  logout_done-token c h = ground (arith, h)

  logout_refused-token :
      (c : RemoteClient http)
      → (is_done (logout http c).0 ≡ false)
      → (logout http c).1.token_store ≡ c.token_store
  unfolding logout request
  logout_refused-token c h = ground (arith, h)

  module _ (spelling : FilePath → Text) where
    check_server-IsSound : (s : Session http) → IsSound s → IsSound (check_server http spelling s).1
    unfolding check_server
    check_server-IsSound s h = ground (arith, h, health_check-token s.client)

    on_login-IsSound :
        (user pass : Text) (s : Session http)
        → IsSound s
        → IsSound (on_login http spelling user pass s)
    unfolding on_login load_config
    on_login-IsSound user pass s h =
        let s1 = (check_server http spelling s).1 in
        let h1 = check_server-IsSound s h in
        elim (Bool-cases (check_server http spelling s).0) [
          | inr away ↦ ground (arith, away, h1)
          | inl there ↦ elim (Bool-cases (is_done (login http user pass s1.client).0)) [
            | inl good ↦ ground (arith, there, good, h1, login-token user pass s1.client good)
            | inr bad ↦ ground (arith, there, bad, h1, login_refused-token user pass s1.client bad)
          ]
        ]

    on_logout-IsSound : (s : Session http) → IsSound s → IsSound (on_logout http spelling s)
    unfolding on_logout
    on_logout-IsSound s h =
        let s1 = (check_server http spelling s).1 in
        let h1 = check_server-IsSound s h in
        elim (Bool-cases (check_server http spelling s).0) [
          | inr away ↦ ground (arith, away, h1)
          | inl there ↦ elim (Bool-cases (is_done (logout http s1.client).0)) [
            | inl good ↦ ground (arith, there, good, h1)
            | inr bad ↦ ground (arith, there, bad, h1, logout_refused-token s1.client bad)
          ]
        ]

    checked_frame :
        (r : Checked) (g : Gui)
        → ((checked spelling r g).window.status ≡ g.window.status)
          × ((checked spelling r g).window.fs_is_active ≡ g.window.fs_is_active)
          × ((checked spelling r g).daemon ≡ g.daemon)
    unfolding load_config
    checked_frame (changed c) g = (refl, refl, refl)
    checked_frame (refused m) g = (refl, refl, refl)

    -- A change of the configuration leaves the user, the mount and the daemon.
    edit_frame :
        (e : Edit) (g : Gui)
        → ((edit spelling e g).window.status ≡ g.window.status)
          × ((edit spelling e g).window.fs_is_active ≡ g.window.fs_is_active)
          × ((edit spelling e g).daemon ≡ g.daemon)
    unfolding edit on_change_string_property on_change_bool_property on_change_int_property
        on_restore_default load_config
    edit_frame (editing_string o) g = (refl, refl, refl)
    edit_frame (editing_bool o) g = (refl, refl, refl)
    edit_frame (editing_int o) g = checked_frame (change_int o g.config) g
    edit_frame restoring g = (refl, refl, refl)

    handle-IsSound : (e : Event) (s : Session http) → IsSound s → IsSound (handle http spelling e s)
    unfolding handle on_mount on_crash on_unmount
    handle-IsSound retry s h = check_server-IsSound s h
    handle-IsSound (log_in user pass) s h = on_login-IsSound user pass s h
    handle-IsSound log_out s h = on_logout-IsSound s h
    handle-IsSound mount s h = ground (arith, h)
    handle-IsSound (crash m) s h = ground (arith, h)
    handle-IsSound unmount s h = ground (arith, h)
    handle-IsSound (change e) s h = ground (arith, h, edit_frame e s.gui)

    -- Whatever is done in the window, and whatever the server answers or does not: from a state in
    -- which a user who counts as logged in has a token and a file system that counts as mounted has a
    -- daemon to stop it, every state is such.
    pub handle_all-IsSound :
        (es : List Event) (s : Session http) → IsSound s → IsSound (handle_all http spelling es s)
    unfolding handle_all
    handle_all-IsSound [] s h = h
    handle_all-IsSound (e ∷ es) s h =
        handle_all-IsSound es (handle http spelling e s) (handle-IsSound e s h)

    -- What is left of a session by a logout: with an answer that accepts it, neither a token nor a
    -- user nor a mount nor a daemon; without one, all four as they were.
    abbrev pub LogoutResult : Bool → Session http → Session http → Type 0
    LogoutResult true s s' =
        (s'.client.token_store ≡ none)
        × (is_logged_in s'.gui.window.status ≡ false)
        × (s'.gui.window.fs_is_active ≡ false)
        × (s'.gui.daemon ≡ false)
    LogoutResult false s s' =
        (s'.client.token_store ≡ s.client.token_store)
        × (s'.gui.window.status ≡ s.gui.window.status)
        × (s'.gui.window.fs_is_active ≡ s.gui.window.fs_is_active)
        × (s'.gui.daemon ≡ s.gui.daemon)

    check_server_frame : (s : Session http) → LogoutResult false s (check_server http spelling s).1
    unfolding check_server
    check_server_frame s = (health_check-token s.client, refl, refl, refl)

    -- A logout that the server accepts, after a check that finds it, leaves neither a token nor a
    -- user nor a mount nor a daemon; any other leaves all four as they were.
    pub on_logout_all_or_nothing :
        (s : Session http)
        → let (available, s1) = check_server http spelling s in
          LogoutResult
            (available && is_done (logout http s1.client).0)
            s
            (on_logout http spelling s)
    unfolding on_logout
    on_logout_all_or_nothing s =
        let s1 = (check_server http spelling s).1 in
        let frame = check_server_frame s in
        elim (Bool-cases (check_server http spelling s).0) [
          | inr away ↦ rw away frame
          | inl there ↦ elim (Bool-cases (is_done (logout http s1.client).0)) [
            | inl good ↦ rw (there, good) (logout_done-token s1.client good, refl, refl, refl)
            | inr bad ↦
                rw (there, bad)
                  (logout_refused-token s1.client bad ∙ frame.0, frame.1, frame.2, frame.3)
          ]
        ]
