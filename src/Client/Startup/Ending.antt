-- ===== src/Client/Startup/Ending.antt =====
-- How `run_async` of client/src/lib.rs ends.
use remote_file_system.Prelude.{
  ℕ, ◌≡◌, refl, ap, ◌∙◌, Bool, true, not, ◌&&◌, Option, none, some, if◌then◌else◌, arith,
}
use remote_file_system.Paths.{Text, FilePath}
use remote_file_system.Action.{Outcome, ok, err, panicked, is_ok}
use remote_file_system.Client.Model.{FileSystem, new}
use remote_file_system.Client.Config.{RfsConfig, MountConfig}
use remote_file_system.Client.Config.Loading.{is_none, can_be_made, new-can_be_made}
use remote_file_system.Client.Startup.{
  Platform, FuseOptions, UnixSession, Ended, session_ended, shutdown, mount, mounted, wait, unmount,
  unmounted, wait_for_end, with_fs, create_mount_point, run_async, after_directory, after_mount,
  after_unmount,
}

module _ (platform : Platform) where
  -- The crate's answer to the mount of a configuration.
  abbrev pub mount_answer :
      MountConfig → FilePath → platform.World → Outcome Text platform.Handle × platform.World
  mount_answer options mount_point w =
      let fuse : FuseOptions = record {
        allow_other = options.allow_other;
        read_only = options.read_only;
      } in
      if options.privileged
      then platform.mount fuse mount_point w
      else platform.mount_with_unprivileged fuse mount_point w

  -- A session that ends with an error is one; a shutdown never is.
  abbrev pub ended_well : Ended → Bool
  ended_well (session_ended e) = is_none e
  ended_well shutdown = true

  mount-answer :
      (options : MountConfig) (mount_point : FilePath) (s : UnixSession platform)
      → mount platform options mount_point s
        ≡ mounted platform s (mount_answer options mount_point s.world)
  unfolding mount
  mount-answer options mount_point s = ground arith

  after_unmount-is_ok :
      (mount_point : FilePath) (answer : Option Text × platform.World)
      → is_ok (after_unmount platform mount_point (unmounted platform answer)).0 ≡ true
  after_unmount-is_ok mount_point (none, w) = refl
  after_unmount-is_ok mount_point (some m, w) = refl

  wait_for_end-is_ok :
      (mount_point : FilePath) (ended : Ended) (h : platform.Handle) (w : platform.World)
      → is_ok (wait_for_end platform mount_point ended (record { handle = some h; world = w })).0
        ≡ ended_well ended
  unfolding wait_for_end wait unmount
  wait_for_end-is_ok mount_point (session_ended none) h w = refl
  wait_for_end-is_ok mount_point (session_ended (some m)) h w = refl
  wait_for_end-is_ok mount_point shutdown h w =
      after_unmount-is_ok mount_point (platform.unmount h w)

  after_mount-is_ok :
      (mount_point : FilePath) (ended : Ended) (s : UnixSession platform)
      (answer : Outcome Text platform.Handle × platform.World)
      → is_ok (after_mount platform mount_point ended (mounted platform s answer)).0
        ≡ (is_ok answer.0 && ended_well ended)
  after_mount-is_ok mount_point ended s (ok h, w) = wait_for_end-is_ok mount_point ended h w
  after_mount-is_ok mount_point ended s (err m, w) = refl
  after_mount-is_ok mount_point ended s (panicked, w) = refl

  with_fs-is_ok :
      {World : Type 0} (config : RfsConfig) (ended : Ended) (fs : Option (FileSystem World))
      (s : UnixSession platform)
      → is_ok (with_fs platform config ended fs s).0 ≡ (
          not (is_none fs)
          && (is_ok (mount_answer config.mount config.mount_point s.world).0 && ended_well ended))
  with_fs-is_ok config ended none s = refl
  with_fs-is_ok config ended (some fs) s = rw (mount-answer config.mount config.mount_point s) (
      after_mount-is_ok config.mount_point ended s
        (mount_answer config.mount config.mount_point s.world))

  after_directory-is_ok :
      {World : Type 0} (config : RfsConfig) (rc : World) (now : ℕ) (ended : Ended)
      (made : Option Text × UnixSession platform)
      → is_ok (after_directory platform config rc now ended made).0 ≡ (
          is_none made.0
          && (can_be_made config.file_system
              && (is_ok (mount_answer config.mount config.mount_point made.1.world).0
                  && ended_well ended)))
  after_directory-is_ok config rc now ended (none, s) =
      with_fs-is_ok config ended (new rc now config.file_system config.cache) s
      ∙ ap
          (λ b.
            b
            && (is_ok (mount_answer config.mount config.mount_point s.world).0 && ended_well ended))
          (new-can_be_made rc now config.file_system config.cache)
  after_directory-is_ok config rc now ended (some m, s) = refl

  -- `run_async` succeeds exactly where the directory of the mount is there or can be made, the page size is
  -- not zero, the buffers are not larger than an allocation can be, the mount succeeds, and the session does
  -- not end with an error. After a shutdown that is so whatever the unmount and the lazy unmount have answered.
  pub run_async-is_ok :
      {World : Type 0} (config : RfsConfig) (rc : World) (now : ℕ) (ended : Ended)
      (w : platform.World)
      → let (e, s) =
          create_mount_point platform config.mount_point (record { handle = none; world = w }) in
        is_ok (run_async platform config rc now ended w).0 ≡ (
          is_none e
          && (can_be_made config.file_system
              && (is_ok (mount_answer config.mount config.mount_point s.world).0
                  && ended_well ended)))
  unfolding run_async
  run_async-is_ok config rc now ended w =
      after_directory-is_ok config rc now ended
        (create_mount_point platform config.mount_point (record { handle = none; world = w }))
