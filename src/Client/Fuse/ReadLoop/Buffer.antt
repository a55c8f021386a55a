-- ===== src/Client/Fuse/ReadLoop/Buffer.antt =====
-- A read buffer of client/src/rw_buffer.rs that holds a part of one file.
use remote_file_system.Prelude.{
  ℕ, ◌+◌, ◌-◌, ◌<◌, ◌≡◌, refl, sym, ◌&&◌, Bool-cases, inl, inr, List, length, take, drop, leb, min,
  word_size, arith,
}
use remote_file_system.Paths.{FilePath, same_path}
use remote_file_system.Client.ReadBuffer
use remote_file_system.Client.ReadBuffer.{ReadBuffer}
use remote_file_system.Client.ReadBuffer.Window.{IsValid, fill-IsValid, read-fill}
use mathlib.Core.Path.{subst}
use remote_file_system.Client.Fuse.ReadLoop.Fronts.{IsPrefix, take-take, window_IsPrefix}

-- A state without a cache whose read buffer holds nothing but bytes of the file, if it holds any of that path.
pub record IsFaithful (path : FilePath) (content : List ℕ) (b : ReadBuffer) : Type 0 where
  pub valid : IsValid b
  pub room : 0 < b.capacity
  pub serves :
      (now offset n : ℕ)
      → offset + n < word_size
      → IsPrefix (ReadBuffer.read b now path offset n) (drop offset content)

pub filled_IsPrefix :
    (path : FilePath) (content : List ℕ) (b : ReadBuffer) (now offset c later from n : ℕ)
    → IsValid b
    → offset + b.capacity < word_size
    → from + n < word_size
    → IsPrefix
        (ReadBuffer.read
          (ReadBuffer.fill b now path offset (take c (drop offset content)))
          later
          path
          from
          n)
        (drop from content)
filled_IsPrefix path content b now offset c later from n v small h =
    let given =
      read-fill b now path offset (take c (drop offset content)) later path from n v small h in
    elim (Bool-cases (same_path path path && (leb offset from && leb later (now + b.ttl)))) [
      | inr e ↦ ground (arith, given, e)
      | inl e ↦ ground (
        arith,
        given,
        e,
        take-take b.capacity c (drop offset content),
        window_IsPrefix n (from - offset) (min b.capacity c) offset content,
      )
    ]

pub fill_capacity :
    (b : ReadBuffer) (now : ℕ) (path : FilePath) (offset : ℕ) (bytes : List ℕ)
    → (ReadBuffer.fill b now path offset bytes).capacity ≡ b.capacity
unfolding ReadBuffer.fill
fill_capacity b now path offset bytes = refl

pub fill-IsFaithful :
    (path : FilePath) (content : List ℕ) (b : ReadBuffer) (now offset c : ℕ)
    → IsFaithful path content b
    → offset + b.capacity < word_size
    → IsFaithful path content (ReadBuffer.fill b now path offset (take c (drop offset content)))
unfolding ReadBuffer.fill
fill-IsFaithful path content b now offset c f small = record {
  valid = fill-IsValid b now path offset (take c (drop offset content)) f.valid;
  room = ground (arith, f.room);
  serves =
      λ later from n h. filled_IsPrefix path content b now offset c later from n f.valid small h;
}

pub fill_front-IsFaithful :
    (path : FilePath) (content : List ℕ) (b : ReadBuffer) (now offset : ℕ) (bytes : List ℕ)
    → IsFaithful path content b
    → offset + b.capacity < word_size
    → IsPrefix bytes (drop offset content)
    → IsFaithful path content (ReadBuffer.fill b now path offset bytes)
fill_front-IsFaithful path content b now offset bytes f small h =
    subst (λ x. IsFaithful path content (ReadBuffer.fill b now path offset x)) (sym h)
      (fill-IsFaithful path content b now offset (length bytes) f small)
