-- ===== src/Client/Model/Handles.antt =====
-- The table of file handles of client/src/fs_model.rs.
use remote_file_system.Prelude.{ℕ, ◌≡◌, ◌≢◌, refl, Option, some, none, ℕ_discrete, arith}
use remote_file_system.Prelude.Assoc.{lookup-insert, lookup-remove}
use remote_file_system.Paths.{FilePath}
use remote_file_system.Client.Action.{Outcome, ok}
use remote_file_system.Client.Network.{RemoteStorage}
use remote_file_system.Client.Model.{State}
use remote_file_system.Client.Model.Data.{open_file, release, get_path_from_fh}

module _ (env : RemoteStorage) where
  -- What the file system knows of a handle.
  abbrev pub path_of : State env → ℕ → Outcome (Option FilePath)
  path_of s fh = (get_path_from_fh env fh s).0

  -- The handle that `open` returns stands for the opened path, and every other handle for what it
  -- stood for before.
  get_path_from_fh-open :
      (path : FilePath) (fh : ℕ) (s : State env)
      → fh ≢ s.current_fh
      → let (r, s') = open_file env path s in
        (r ≡ ok s.current_fh)
        × (path_of s' s.current_fh ≡ ok (some path))
        × (path_of s' fh ≡ path_of s fh)
  unfolding open_file get_path_from_fh
  get_path_from_fh-open path fh s other = (
    refl,
    ground (arith, lookup-insert ℕ_discrete s.current_fh s.current_fh path s.file_handlers),
    ground (arith, lookup-insert ℕ_discrete s.current_fh fh path s.file_handlers),
  )

  -- `release` makes its handle stand for no path, and leaves every other handle as it was.
  pub get_path_from_fh-release :
      (fh other : ℕ) (s : State env)
      → other ≢ fh
      → let s' = (release env fh s).1 in
        (path_of s' fh ≡ ok none) × (path_of s' other ≡ path_of s other)
  unfolding release get_path_from_fh
  get_path_from_fh-release fh other s ne = (
    ground (arith, lookup-remove ℕ_discrete fh fh s.file_handlers),
    ground (arith, lookup-remove ℕ_discrete fh other s.file_handlers),
  )
