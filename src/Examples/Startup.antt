-- ===== src/Examples/Startup.antt =====
-- The start of the client and its commands at concrete inputs.
use remote_file_system.Prelude.{
  ℕ, ◌+◌, if◌then◌else◌, ◌≡◌, refl, true, false, ◌&&◌, none, some, [], ◌∷◌, ◌==◌,
}
use remote_file_system.Paths.{FilePath, normal, parent_dir}
use remote_file_system.Action.{ok, is_ok}
use remote_file_system.Server.Requests.{no_content, token}
use remote_file_system.Client.Remote.{Http, RemoteClient}
use remote_file_system.Client.Config.{default_config}
use remote_file_system.Client.Config.Loading.{is_none, can_be_made}
use remote_file_system.Client.Startup
use remote_file_system.Client.Model
use remote_file_system.Client.ReadBuffer
use remote_file_system.Client.WriteBuffer
use remote_file_system.Client.Startup.{
  Terminal, Platform, UnixSession, shutdown, create_mount_point, run_async, perform_login,
}
use remote_file_system.Client.Startup.Attempts
use remote_file_system.Client.Startup.Attempts.{LoginResult}
use remote_file_system.Client.Startup.Ending
use remote_file_system.Client.Startup.Ending.{mount_answer, ended_well}
use remote_file_system.Client.Commands.{Files, execute}
use remote_file_system.Client.Commands.Generating
use remote_file_system.Client.Commands.Generating.{WritesToml}
use remote_file_system.Util.{normalize_path, normalize_from}

-- A server that refuses the first login and accepts the second.
abbrev second_time : Http
second_time = record {
  Wire = ℕ;
  now = λ w. w;
  send = λ h r w. (none, w);
  send_login = λ u p w. (
    some (
        if w == 0
        then record { status = 401; body = ok no_content }
        else record { status = 200; body = ok (token (116 ∷ [])) }),
    w + 1,
  );
  send_health = λ w. (none, w);
  decimal = λ n. [];
  spelling = λ p. [];
}

abbrev typed : Terminal
typed = record {
  usernames = λ i. some (117 ∷ []);
  passwords = λ i. some (i ∷ []);
  password_variable = none;
}

abbrev unknown : RemoteClient second_time
unknown = record { token_store = none; wire = 0 }

perform_login_lem_example :
    LoginResult second_time typed default_config
      (perform_login second_time typed default_config unknown).0
      unknown
      (perform_login second_time typed default_config unknown).1
perform_login_lem_example = Attempts.perform_login_lem second_time typed default_config unknown

-- A system that makes no directories, mounts, and does not unmount; the world counts the commands.
abbrev stuck : Platform
stuck = record {
  World = ℕ;
  Handle = Unit {0};
  exists = λ p w. true;
  create_dir_all = λ p w. (some [], w);
  mount = λ o p w. (ok tt, w);
  mount_with_unprivileged = λ o p w. (ok tt, w);
  unmount = λ h w. (some [], w);
  spawn = λ c arguments p w. (false, w + 1);
}

run_async-is_ok_example :
    let (e, s) =
      create_mount_point stuck default_config.mount_point (record { handle = none; world = 0 }) in
    is_ok (run_async stuck {World = ℕ} default_config 0 0 shutdown 0).0 ≡ (
      is_none e
      && (can_be_made default_config.file_system
          && (is_ok (mount_answer stuck default_config.mount default_config.mount_point s.world).0
              && ended_well stuck shutdown)))
run_async-is_ok_example = Ending.run_async-is_ok stuck {World = ℕ} default_config 0 0 shutdown 0

-- The three commands are tried, none starts, and the run is a success.
still_mounted :
    let r = run_async stuck {World = ℕ} default_config 0 0 shutdown 0 in
    (is_ok r.0 ≡ true) × (r.1.world ≡ 3)
unfolding run_async default_config Model.new ReadBuffer.new WriteBuffer.new Startup.mount
    Startup.unmount Startup.wait_for_end Startup.lazy_unmount Startup.first_started
still_mounted = (refl, refl)

-- Files by their number; there is one already.
abbrev counted : Files
counted = record { World = ℕ; exists = λ p w. false; write = λ p t w. (none, w + 1) }

abbrev output : FilePath
output = normal (97 ∷ []) ∷ parent_dir ∷ normal (99 ∷ []) ∷ []

execute_writes_example :
    WritesToml counted (λ c. some []) false 0 (execute counted (λ c. some []) false output 0)
unfolding normalize_path normalize_from
execute_writes_example = Generating.execute_writes counted (λ c. some []) false output 0 tt
