-- ===== src/Client/Startup.antt =====
-- The start of the client: `perform_login` and `run_async` of client/src/lib.rs, with the mount session
-- of client/src/mount.rs and client/src/mount/unix.rs. The terminal, the commands of the system and the
-- crate that mounts are parameters.
pub mod Attempts
pub mod Ending
use remote_file_system.Prelude.{
  ℕ, zero, suc, Bool, true, false, Option, none, some, List, [], ◌∷◌, if◌then◌else◌,
}
use remote_file_system.Paths.{Text, text, FilePath}
use remote_file_system.Action.{Outcome, ok, err, panicked}
use remote_file_system.Client.Network.{Reply, done, failed}
use remote_file_system.Client.Remote.{Http, RemoteClient, login}
use remote_file_system.Client.Model.{FileSystem, new}
use remote_file_system.Client.Config.{RfsConfig, MountConfig}

-- `MountError`, with its messages.
pub data MountError : Type 0 where
  mount_failed : Text → MountError
  unmount_failed : Text → MountError
  other_mount : Text → MountError

-- The errors of `RfsClientError` that are met here.
pub data RfsClientError : Type 0 where
  daemon : Text → RfsClientError
  mount_error : MountError → RfsClientError
  other : Text → RfsClientError

-- What is typed at each attempt, where it can be read, and the variable `RFS__PASSWORD`.
pub record Terminal : Type 0 where
  pub usernames : ℕ → Option Text
  pub passwords : ℕ → Option Text
  pub password_variable : Option Text

-- `MAX_LOGIN_ATTEMPTS`
abbrev pub max_login_attempts : ℕ
max_login_attempts = 3

abbrev pub or_typed : Option Text → Option Text → Option Text
or_typed (some t) typed = some t
or_typed none typed = typed

abbrev pub both : Option Text → Option Text → Option (Text × Text)
both (some u) (some p) = some (u, p)
both _ _ = none

-- The name and the password of an attempt; nothing where one of them cannot be read, which panics.
unfoldable pub credentials : Terminal → RfsConfig → ℕ → Option (Text × Text)
credentials t config i =
    both (or_typed config.username (t.usernames i)) (or_typed t.password_variable (t.passwords i))

-- A login that succeeds is the last.
abbrev pub or_again :
    {http : Http}
    → Reply Text × RemoteClient http
    → (RemoteClient http → Outcome RfsClientError Text × RemoteClient http)
    → Outcome RfsClientError Text × RemoteClient http
or_again (done t, c) again = (ok t, c)
or_again (failed e, c) again = again c

module _ (http : Http) (terminal : Terminal) (config : RfsConfig) where
  -- The attempts that are left, from one on.
  unfoldable pub login_from :
      ℕ → ℕ → RemoteClient http → Outcome RfsClientError Text × RemoteClient http
  login_from zero i c = (err (other (text "Impossible to login: Invalid credentials!")), c)
  login_from (suc n) i c = elim (credentials terminal config i) [
    | none ↦ (panicked, c)
    | some (u, p) ↦ or_again (login http u p c) (login_from n (suc i))
  ]

  unfoldable pub perform_login : RemoteClient http → Outcome RfsClientError Text × RemoteClient http
  perform_login = login_from max_login_attempts 0

-- What ends the wait: the session, which may report an error, or a shutdown.
pub data Ended : Type 0 where
  session_ended : Option Text → Ended
  shutdown : Ended

-- `MountOptionsFuse`
pub record FuseOptions : Type 0 where
  pub allow_other : Bool
  pub read_only : Bool

-- The directories of the system, the crate `fuse3` and the start of a command. A result is none for
-- success, and otherwise a message.
pub record Platform : Type 1 where
  pub World : Type 0
  pub Handle : Type 0
  pub exists : FilePath → World → Bool
  pub create_dir_all : FilePath → World → Option Text × World
  pub mount : FuseOptions → FilePath → World → Outcome Text Handle × World
  pub mount_with_unprivileged : FuseOptions → FilePath → World → Outcome Text Handle × World
  pub unmount : Handle → World → Option Text × World
  pub spawn : Text → List Text → FilePath → World → Bool × World

module _ (platform : Platform) where
  -- `UnixSession`, beside the system.
  pub record UnixSession : Type 0 where
    pub handle : Option platform.Handle
    pub world : platform.World

  abbrev pub Step : Type 0
  Step = UnixSession → Outcome MountError (Unit {0}) × UnixSession

  abbrev pub mounted :
      UnixSession
      → Outcome Text platform.Handle × platform.World
      → Outcome MountError (Unit {0}) × UnixSession
  mounted s (ok h, w) = (ok tt, record { handle = some h; world = w })
  mounted s (err m, w) = (err (mount_failed m), record s { world = w })
  mounted s (panicked, w) = (panicked, record s { world = w })

  unfoldable pub mount : MountConfig → FilePath → Step
  mount options mount_point s =
      let fuse : FuseOptions = record {
        allow_other = options.allow_other;
        read_only = options.read_only;
      } in
      if options.privileged
      then mounted s (platform.mount fuse mount_point s.world)
      else mounted s (platform.mount_with_unprivileged fuse mount_point s.world)

  -- `handle.await`, of a session that has ended so.
  unfoldable pub wait : Option Text → UnixSession → Outcome MountError (Unit {0})
  wait ended s = elim s.handle [
    | none ↦ err (other_mount (text "Mount session not initialized."))
    | some h ↦ elim ended [ none ↦ ok tt | some m ↦ err (other_mount m) ]
  ]

  abbrev pub unmounted : Option Text × platform.World → Outcome MountError (Unit {0}) × UnixSession
  unmounted (none, w) = (ok tt, record { handle = none; world = w })
  unmounted (some m, w) = (err (unmount_failed m), record { handle = none; world = w })

  -- The handle is taken, also where the unmount then fails.
  unfoldable pub unmount : Step
  unmount s = elim s.handle [
    | none ↦ (err (other_mount (text "Mount session not initialized.")), s)
    | some h ↦ unmounted (platform.unmount h s.world)
  ]

  -- The loop over the candidates: the first command that starts is the last.
  unfoldable pub first_started :
      List (Text × List Text) → FilePath → platform.World → Bool × platform.World
  first_started [] mount_point w = (false, w)
  first_started ((command, arguments) ∷ cs) mount_point w =
      let (started, w1) = platform.spawn command arguments mount_point w in
      elim started [ true ↦ (true, w1) | false ↦ first_started cs mount_point w1 ]

  abbrev pub candidates : List (Text × List Text)
  candidates =
      (text "umount", text "-l" ∷ [])
      ∷ (text "fusermount3", text "-u" ∷ text "-z" ∷ [])
      ∷ (text "fusermount", text "-u" ∷ text "-z" ∷ [])
      ∷ []

  unfoldable pub lazy_unmount : FilePath → Step
  lazy_unmount mount_point s =
      let (started, w) = first_started candidates mount_point s.world in
      (
        (if started
            then ok tt
            else err (unmount_failed (text "No suitable lazy-unmount command available"))),
        record s { world = w },
      )

  abbrev pub Run : Type 0
  Run = Outcome RfsClientError (Unit {0}) × UnixSession

  abbrev pub after_unmount : FilePath → Outcome MountError (Unit {0}) × UnixSession → Run
  after_unmount mount_point (ok u, s) = (ok tt, s)
  after_unmount mount_point (err e, s) = (ok tt, (lazy_unmount mount_point s).1)
  after_unmount mount_point (panicked, s) = (panicked, s)

  abbrev pub after_wait : Outcome MountError (Unit {0}) → UnixSession → Run
  after_wait (ok u) s = (ok tt, s)
  after_wait (err e) s = (err (daemon (text "mount session error")), s)
  after_wait panicked s = (panicked, s)

  -- `tokio::select!`
  unfoldable pub wait_for_end : FilePath → Ended → UnixSession → Run
  wait_for_end mount_point (session_ended e) s = after_wait (wait e s) s
  wait_for_end mount_point shutdown s = after_unmount mount_point (unmount s)

  abbrev pub after_mount : FilePath → Ended → Outcome MountError (Unit {0}) × UnixSession → Run
  after_mount mount_point ended (ok u, s) = wait_for_end mount_point ended s
  after_mount mount_point ended (err e, s) = (err (mount_error e), s)
  after_mount mount_point ended (panicked, s) = (panicked, s)

  -- The mount of a file system, where it can be made.
  abbrev pub with_fs :
      {World : Type 0} → RfsConfig → Ended → Option (FileSystem World) → UnixSession → Run
  with_fs config ended none s = (panicked, s)
  with_fs config ended (some fs) s =
      after_mount config.mount_point ended (mount config.mount config.mount_point s)

  -- The directory of the mount, made where it is missing.
  abbrev pub create_mount_point : FilePath → UnixSession → Option Text × UnixSession
  create_mount_point mount_point s =
      if platform.exists mount_point s.world
      then (none, s)
      else let (e, w) = platform.create_dir_all mount_point s.world in (e, record s { world = w })

  abbrev pub after_directory :
      {World : Type 0} → RfsConfig → World → ℕ → Ended → Option Text × UnixSession → Run
  after_directory config rc now ended (none, s) =
      with_fs config ended (new rc now config.file_system config.cache) s
  after_directory config rc now ended (some m, s) =
      (err (other (text "Could not create mount point directory")), s)

  unfoldable pub run_async : {World : Type 0} → RfsConfig → World → ℕ → Ended → platform.World → Run
  run_async config rc now ended w =
      after_directory config rc now ended
        (create_mount_point config.mount_point (record { handle = none; world = w }))
