-- ===== src/Client/Fuse/ReadLoop.antt =====
-- The loop of `read` and `copy_file_range` of client/src/fuse/unix.rs ends.
pub mod Fronts
pub mod Buffer
pub mod Content
use remote_file_system.Prelude.{
  ℕ, zero, suc, ◌+◌, ◌-◌, ◌≤◌, ◌<◌, ◌≡◌, refl, Bool, true, false, Bool-cases, Option, none, some,
  inl, inr, List, [], ◌∷◌, ◌++◌, length, length-append, leb, ltb, add_usize, arith,
}
use remote_file_system.Paths.{FilePath}
use remote_file_system.Action.{Outcome, ok, err, panicked}
use remote_file_system.Client.Action as ModelAction
use remote_file_system.Client.Attributes.Modes.{Libc}
use remote_file_system.Client.Network.{RemoteStorage}
use remote_file_system.Client.Model.{State}
use remote_file_system.Client.Model.Data
use remote_file_system.Client.Model.ReadLength.{length-read_file_le}
use remote_file_system.Client.Fuse.{Errno, errno_of_model, model}
use remote_file_system.Client.Fuse.Files.{read_loop}

-- Not out of fuel: at most that many bytes, an error or a panic.
abbrev pub has_ended : ℕ → Outcome Errno (Option (List ℕ)) → Bool
has_ended n (ok none) = false
has_ended n (ok (some b)) = leb (length b) n
has_ended n (err e) = true
has_ended n panicked = true

module _ (libc : Libc) (env : RemoteStorage) where
  loop_ends :
      (fuel : ℕ) (path : FilePath) (offset size : ℕ) (bytes : List ℕ) (s : State env)
      → size < fuel + length bytes
      → length bytes ≤ size
      → has_ended size (read_loop libc env fuel path offset size bytes s).0 ≡ true
  unfolding read_loop
  loop_ends zero path offset size bytes s enough short = ground arith
  loop_ends (suc fuel) path offset size bytes s enough short =
      let at = add_usize offset (length bytes) in
      let left = size - length bytes in
      elim (Bool-cases (ltb (length bytes) size)) [
        | inr e ↦ ground (arith, e)
        | inl e ↦ elim (ModelAction.outcome-cases (Data.read_file env path at left s).0) [
          | inr (inl (_, r)) ↦ ground (arith, e, r)
          | inr (inr r) ↦ ground (arith, e, r)
          | inl ([], r) ↦ ground (arith, e, r)
          | inl (b ∷ bs, r) ↦
              let given = length-read_file_le env path at left s (b ∷ bs) r in
              let more = length-append bytes (b ∷ bs) in
              let rest =
                loop_ends fuel path offset size (bytes ++ b ∷ bs)
                  (Data.read_file env path at left s).1 (omega (arith, more, enough))
                  (omega (arith, more, given)) in
              ground (arith, e, r, rest)
        ]
      ]

  -- From any state and whatever the server answers, the loop of a read of `size` bytes is done
  -- after at most `size + 1` rounds: it has given at most `size` bytes, an error or a panic.
  pub read_loop_ends :
      (path : FilePath) (offset size : ℕ) (s : State env)
      → has_ended size (read_loop libc env (suc size) path offset size [] s).0 ≡ true
  read_loop_ends path offset size s =
      loop_ends (suc size) path offset size [] s (omega arith) (omega arith)
