-- ===== src/Client/WriteBuffer/Stream.antt =====
-- `WriteBuffer` of client/src/rw_buffer.rs keeps its range, and holds a run of accepted bytes.
use remote_file_system.Prelude.{
  ℕ, ◌+◌, ◌-◌, ◌≤◌, ◌<◌, min, ◌≡◌, List, ◌++◌, length, take, word_size, arith, length-take,
  length-overwrite, take-overwrite, Bool-cases, inl, inr, refl, ap, if◌then◌else◌,
}
use remote_file_system.Paths.{FilePath}
use remote_file_system.Client.WriteBuffer.{WriteBuffer, is_appending, write, get_content}

-- The storage has the stated size, the filled part fits, and no offset wraps.
pub record IsValid (b : WriteBuffer) : Type 0 where
  pub storage : length b.buffer ≡ b.capacity
  pub filled : b.valid_up_to ≤ b.capacity
  pub end : b.offset + b.capacity < word_size

-- The room for a write at this place.
abbrev pub room : WriteBuffer → FilePath → ℕ → ℕ
room b path offset = if is_appending b path offset then b.capacity - b.valid_up_to else b.capacity

module _ (b : WriteBuffer) (path : FilePath) (offset : ℕ) (bytes : List ℕ) where
  abbrev appended : ℕ
  appended = min (length bytes) (b.capacity - b.valid_up_to)

  abbrev started : ℕ
  started = min (length bytes) b.capacity

  -- A write to a valid buffer takes as many bytes as there is room for, each copy has the length of
  -- its target, and the filled part stays inside the storage.
  pub write_in_bounds :
      IsValid b
      → let n = (write b path offset bytes).1 in
        (n ≡ min (length bytes) (room b path offset))
        × (length (take n bytes) ≡ n)
        × ((write b path offset bytes).0.valid_up_to ≤ length b.buffer)
  unfolding write
  write_in_bounds v = elim (Bool-cases (is_appending b path offset)) [
    | inl e ↦ rw e (refl, omega (arith, length-take appended bytes), omega arith)
    | inr e ↦ rw e (refl, omega (arith, length-take started bytes), omega arith)
  ]

  pub write-IsValid :
      IsValid b → offset + b.capacity < word_size → IsValid (write b path offset bytes).0
  unfolding write
  write-IsValid v h = ground (
    arith,
    length-overwrite b.buffer b.valid_up_to (take appended bytes),
    length-overwrite b.buffer 0 (take started bytes),
  )

  -- Where the write continues the buffer, the content grows by the accepted bytes; elsewhere the
  -- accepted bytes are the content.
  pub get_content-write :
      IsValid b
      → let n = (write b path offset bytes).1 in
        get_content (write b path offset bytes).0 ≡ (
          if is_appending b path offset
          then (b.path, b.offset, (get_content b).2 ++ take n bytes)
          else (path, offset, take n bytes))
  unfolding write get_content
  get_content-write v = elim (Bool-cases (is_appending b path offset)) [
    | inl e ↦ rw e (
        ap (λ l. (b.path, b.offset, l))
          (take-overwrite _ b.buffer b.valid_up_to (take appended bytes)
            (omega (arith, length-take appended bytes)) (omega arith)))
    | inr e ↦ rw e (
        ap (λ l. (path, offset, l))
          (take-overwrite _ b.buffer 0 (take started bytes)
            (omega (arith, length-take started bytes)) (omega arith)))
  ]
