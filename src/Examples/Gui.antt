-- ===== src/Examples/Gui.antt =====
-- The configuration and the window at concrete inputs.
use remote_file_system.Prelude.{ℕ, ◌≡◌, refl, true, false, none, some, List, [], ◌∷◌, arith}
use remote_file_system.Paths.{Text, text, FilePath, cur_dir, parent_dir, normal}
use remote_file_system.Util
use remote_file_system.Util.{normalize_path, IsNormal}
use remote_file_system.Client.Cache.{lru}
use remote_file_system.Client.Remote.{Http}
use remote_file_system.Client.Config.{RfsConfig}
use remote_file_system.Client.Config.Logging.{LoggingConfig, console, file, default_logging}
use remote_file_system.Action.{ok}
use remote_file_system.Server.Requests.{no_content, token}
use remote_file_system.Client.Gui.{Gui, Window, not_logged_in, logged_in, settings_of}
use remote_file_system.Client.Gui.Edits.Limits
use remote_file_system.Client.Gui.Edits.Restoring
use remote_file_system.Client.Gui.Edits.Limits.{
  Edit, editing_int, editing_bool, restoring, edit, edit_all, InLimit,
}
use remote_file_system.Client.Gui.Session
use remote_file_system.Client.Gui.Session.{
  Event, log_in, log_out, mount, handle_all, check_server, is_done, on_logout,
}
use remote_file_system.Client.Gui.Session.Tokens
use remote_file_system.Client.Gui.Session.Tokens.{IsSound, LogoutResult}

normalize_path_lem_example :
    let p = cur_dir ∷ normal (97 ∷ []) ∷ parent_dir ∷ normal (98 ∷ []) ∷ [] in
    IsNormal (normalize_path p) × (normalize_path (normalize_path p) ≡ normalize_path p)
normalize_path_lem_example =
    Util.normalize_path_lem (cur_dir ∷ normal (97 ∷ []) ∷ parent_dir ∷ normal (98 ∷ []) ∷ [])

-- A path above the directory that it starts from loses the step up.
step_up : normalize_path (parent_dir ∷ normal (97 ∷ []) ∷ []) ≡ normal (97 ∷ []) ∷ []
unfolding normalize_path Util.normalize_from
step_up = refl

-- Ten entries of four bytes, and pages of no bytes.
abbrev tiny : RfsConfig
tiny = record {
  mount_point = [];
  server_url = [];
  username = none;
  foreground = false;
  gui_enabled = true;
  mount = record { allow_other = false; read_only = false; privileged = false };
  file_system = record { xattr_enable = true; page_size = 0; max_pages = 1; buffer_size = 8 };
  cache = record {
    enabled = true;
    capacity = 10;
    ttl = 1;
    use_ttl = true;
    policy = lru;
    max_size = 4;
  };
  logging = default_logging;
}

abbrev spell : FilePath → Text
spell p = []

abbrev window : Window
window = record {
  settings = record {
    allow_other = false;
    mount_point = [];
    privileged = false;
    read_only = false;
    capacity = 0;
    cache_enabled = false;
    max_size = 0;
    policy = [];
    ttl = 0;
    use_ttl = false;
    buffer_size = 0;
    foreground = false;
    max_pages = 0;
    page_size = 0;
    xattr_enable = false;
    log_dir = [];
    log_file = [];
    log_format = [];
    log_level = [];
    log_rotation = [];
  };
  status = not_logged_in;
  fs_is_active = false;
  is_loading = false;
  server_unavailable = false;
  show_restore_default = false;
  error_message = [];
}

abbrev opened : Gui
opened = Session.new window tiny

abbrev edits : List Edit
edits =
    editing_int (record { env = text "CACHE"; id_rust = text "capacity"; value = 1000 })
    ∷ restoring
    ∷ editing_bool (record { env = text "FS"; id_rust = text "xattr_enable"; value = false })
    ∷ []

edit_all-InLimit_example : InLimit (edit_all spell edits opened).config
edit_all-InLimit_example =
    Limits.edit_all-InLimit spell edits opened (omega arith, (tt, (tt, tt)))
      (record { capacity = omega arith; max_size = omega arith; bytes = omega arith })

restoring_without_effect_example :
    let after = edit spell restoring (edit_all spell edits opened) in
    (after.config ≡ (edit_all spell (Restoring.without_restoring edits) opened).config)
    × (after.window.settings ≡ settings_of spell opened.default_config)
restoring_without_effect_example = Restoring.restoring_without_effect spell edits opened

-- A server that accepts everything.
abbrev accepting : Http
accepting = record {
  Wire = ℕ;
  now = λ w. w;
  send = λ h r w. (some (record { status = 200; body = ok no_content }), w);
  send_login = λ u p w. (some (record { status = 200; body = ok (token (116 ∷ [])) }), w);
  send_health = λ w. (some (record { status = 200; body = ok no_content }), w);
  decimal = λ n. [];
  spelling = λ p. [];
}

abbrev begun : Session.Session accepting
begun = record { gui = opened; client = record { token_store = none; wire = 0 } }

abbrev events : List Event
events = log_in (117 ∷ []) (112 ∷ []) ∷ mount ∷ log_out ∷ []

begun-IsSound : IsSound accepting begun
begun-IsSound = record { token = refl; daemon = refl }

handle_all-IsSound_example : IsSound accepting (handle_all accepting spell events begun)
handle_all-IsSound_example = Tokens.handle_all-IsSound accepting spell events begun begun-IsSound

abbrev at_work : Session.Session accepting
at_work = record {
  gui = record opened { window = record window { status = logged_in; fs_is_active = true } };
  client = record { token_store = some (116 ∷ []); wire = 0 };
}

abbrev two_targets : LoggingConfig
two_targets = record default_logging { log_targets = file ∷ console ∷ file ∷ [] }
