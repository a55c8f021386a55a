-- ===== src/Client/Windows/Files/Memory.antt =====
-- The memory that handlers of client/src/fuse/windows.rs write to.
use remote_file_system.Prelude.{
  ℕ, ◌+◌, ◌*◌, ◌%◌, ◌^◌, ◌≤◌, ◌<◌, ◌≡◌, ap, ◌∙◌, min, List, ◌++◌, length, take, drop, overwrite,
  overwrite_front, length-append, arith, some,
}
use remote_file_system.Action.{ok}
use remote_file_system.Client.Action as ModelAction
use remote_file_system.Client.Network.{RemoteStorage}
use remote_file_system.Client.Model.{State}
use remote_file_system.Client.Model.Data
use remote_file_system.Client.Model.ReadLength
use remote_file_system.Client.Windows.{Winfsp, Handle}
use remote_file_system.Client.Windows.Files.{descriptor, get_security, read}

square_large : (len : ℕ) → 5 ≤ len → 20 ≤ len * len
square_large len h = grind arith

-- A buffer for a security descriptor of 5 to 19 bytes: all 20 bytes of the descriptor are written, so
-- that the memory behind the buffer is overwritten with the end of the descriptor.
pub get_security_overruns :
    (len : ℕ) (buffer behind : List ℕ)
    → length buffer ≡ len
    → 5 ≤ len
    → len < 20
    → 20 ≤ len + length behind
    → (get_security (some len) (buffer ++ behind)).1
      ≡ descriptor ++ drop (length descriptor) (buffer ++ behind)
unfolding get_security
get_security_overruns len buffer behind has_length h1 h2 h3 =
    let all_of_it : min 20 (len * len) ≡ 20 = omega (arith, square_large len h1) in
    ap (λ k. overwrite (buffer ++ behind) 0 (take k descriptor)) all_of_it
    ∙ overwrite_front (buffer ++ behind) descriptor
        (omega (arith, length-append buffer behind, has_length, h3))

module _ (win : Winfsp) (env : RemoteStorage) where
  -- A read that the file system model answers never fails for want of room: the bytes stand at the
  -- front of the buffer, the rest of which stays as it was, and their number is given.
  pub read_fits :
      (context : Handle) (offset : ℕ) (buffer bytes : List ℕ) (s s' : State env)
      → Data.read_file env context.path offset (length buffer) s ≡ (ModelAction.ok bytes, s')
      → read win env context offset buffer s
        ≡ (ok (length bytes % 2 ^ 32, bytes ++ drop (length bytes) buffer), s')
  unfolding read
  read_fits context offset buffer bytes s s' h =
      let short =
        ReadLength.length-read_file_le env context.path offset (length buffer) s bytes
          (ap (λ r. r.0) h) in
      ground (arith, h, short, overwrite_front buffer bytes short)
