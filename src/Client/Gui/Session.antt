-- ===== src/Client/Gui/Session.antt =====
-- The callbacks of client/src/gui/logic.rs that log in and out, mount and unmount. A callback that
-- starts a task is done when its task is; the mounted file system is not part of the state, and its
-- end with an error is an event of its own.
pub mod Tokens
use remote_file_system.Prelude.{
  ℕ, ◌≡◌, refl, Bool, true, false, not, ◌||◌, Bool-cases, Option, none, some, inl, inr, List, [],
  ◌∷◌, if◌then◌else◌, arith,
}
use remote_file_system.Paths.{Text, text, FilePath}
use remote_file_system.Client.Network.{Reply, done, failed, reply-cases}
use remote_file_system.Client.Remote.{
  Http, RemoteClient, health_check, login, logout, keep_token, drop_token, request,
}
use remote_file_system.Client.Config.{RfsConfig}
use remote_file_system.Client.Gui.{Gui, Window, Status, logged_in, not_logged_in, load_config}
use remote_file_system.Client.Gui.Edits.Limits.{Edit, edit}

-- `Gui::new`, with the window as it is first shown.
abbrev pub new : Window → RfsConfig → Gui
new window config = record {
  window = window;
  daemon = true;
  default_config = config;
  config = config;
}

pub record Session (http : Http) : Type 0 where
  pub gui : Gui
  pub client : RemoteClient http

abbrev pub is_done : {A : Type 0} → Reply A → Bool
is_done (done a) = true
is_done (failed e) = false

-- What a callback does after the check of the server.
pub data Event : Type 0 where
  retry : Event
  log_in : Text → Text → Event
  log_out : Event
  mount : Event
  crash : Text → Event
  unmount : Event
  change : Edit → Event

abbrev pub with_window : (Window → Window) → Gui → Gui
with_window f g = record g { window = f g.window }

-- The window after the check of the server.
abbrev pub checked_server : Bool → Gui → Gui
checked_server available =
    with_window (λ w. record w { server_unavailable = not available; is_loading = false })

abbrev pub is_logged_in : Status → Bool
is_logged_in logged_in = true
is_logged_in not_logged_in = false

module _ (http : Http) (spelling : FilePath → Text) where
  -- `health_check`: whether the server is there.
  unfoldable pub check_server : Session http → Bool × Session http
  check_server s =
      let (r, c) = health_check http s.client in
      (is_done r, record { gui = checked_server (is_done r) s.gui; client = c })

  -- The window after the answer to a login, which may show an error.
  abbrev pub after_login : Bool → Gui → Gui
  after_login true g =
      with_window
        (λ w. record (load_config spelling g.config w) { is_loading = false; status = logged_in }) g
  after_login false g =
      with_window (λ w. record w { error_message = text "Invalid credentials!" }) g

  unfoldable pub on_login : Text → Text → Session http → Session http
  on_login user pass s =
      let (available, s1) = check_server s in
      let (r, c) = login http user pass s1.client in
      if available then record { gui = after_login (is_done r) s1.gui; client = c } else s1

  -- The daemon is stopped where the logout has been accepted.
  abbrev pub after_logout : Bool → Gui → Gui
  after_logout true g = record g {
    daemon = false;
    window = record g.window { fs_is_active = false; status = not_logged_in; is_loading = false };
  }
  after_logout false g =
      with_window (λ w. record w { error_message = text "Error while logging out!" }) g

  unfoldable pub on_logout : Session http → Session http
  on_logout s =
      let (available, s1) = check_server s in
      let (r, c) = logout http s1.client in
      if available then record { gui = after_logout (is_done r) s1.gui; client = c } else s1

  -- The daemon that there is, or a new one, waits for the shutdown of the mount.
  unfoldable pub on_mount : Gui → Gui
  on_mount g = record g {
    daemon = true;
    window = record g.window { is_loading = false; fs_is_active = true };
  }

  -- The end of `run_async` with an error.
  unfoldable pub on_crash : Text → Gui → Gui
  on_crash message =
      with_window
        (λ w. record w { is_loading = false; fs_is_active = false; error_message = message })

  unfoldable pub on_unmount : Gui → Gui
  on_unmount g = record g {
    daemon = false;
    window = record g.window { fs_is_active = false; is_loading = false };
  }

  unfoldable pub handle : Event → Session http → Session http
  handle retry s = (check_server s).1
  handle (log_in user pass) s = on_login user pass s
  handle log_out s = on_logout s
  handle mount s = record s { gui = on_mount s.gui }
  handle (crash m) s = record s { gui = on_crash m s.gui }
  handle unmount s = record s { gui = on_unmount s.gui }
  handle (change e) s = record s { gui = edit spelling e s.gui }

  unfoldable pub handle_all : List Event → Session http → Session http
  handle_all [] s = s
  handle_all (e ∷ es) s = handle_all es (handle e s)

  -- `Drop`: the daemon is stopped, and a user who is logged in is logged out.
  unfoldable pub drop : Session http → Session http
  drop s =
      let (r, c) = logout http s.client in
      if is_logged_in s.gui.window.status
      then record { gui = record s.gui { daemon = false }; client = c }
      else record s { gui = record s.gui { daemon = false } }
