-- ===== src/Client/ReadBuffer/Window.antt =====
-- What `ReadBuffer` of client/src/rw_buffer.rs gives back of the bytes that it was filled with.
use remote_file_system.Prelude.{
  ℕ, ◌+◌, ◌-◌, ◌≤◌, ◌<◌, min, ◌≡◌, ap, ◌∙◌, ◌&&◌, List, overwrite, overwrite_front,
  take-drop-append, take-min-length, length-drop, drop_of_length-le, take_nil, [], length, take,
  drop, slice, word_size, leb, arith, length-take, length-overwrite, if◌then◌else◌,
}
use remote_file_system.Paths.{FilePath, same_path}
use remote_file_system.Client.ReadBuffer.{ReadBuffer, fill, read}

pub record IsValid (b : ReadBuffer) : Type 0 where
  pub storage : length b.buffer ≡ b.capacity
  pub filled : b.valid_up_to ≤ b.capacity

pub fill-IsValid :
    (b : ReadBuffer) (now : ℕ) (path : FilePath) (offset : ℕ) (bytes : List ℕ)
    → IsValid b
    → IsValid (fill b now path offset bytes)
unfolding fill
fill-IsValid b now path offset bytes v =
    ground (arith, length-overwrite b.buffer 0 (take (min (length bytes) b.capacity) bytes))

-- A read inside the copied front of the storage.
read_front :
    (storage bytes : List ℕ) (i n : ℕ)
    → length bytes ≤ length storage
    → i ≤ length bytes
    → slice (overwrite storage 0 bytes) i (min (i + n) (length bytes)) ≡ take n (drop i bytes)
read_front storage bytes i n h k =
    ap (λ l. slice l i end) (overwrite_front storage bytes h)
    ∙ take-drop-append (end - i) i bytes (drop (length bytes) storage) (omega arith)
    ∙ ap (λ k. take k (drop i bytes)) (omega (arith, length-drop i bytes))
    ∙ take-min-length n (drop i bytes)
  where
    end : ℕ
    end = min (i + n) (length bytes)

-- A valid buffer that was filled, at a place from which its capacity fits a usize, serves exactly
-- the filled bytes, cut to its capacity: a read of the same path, at or behind the place of the
-- fill, not past a usize and within the time to live, gives them from its own place on, at most as
-- many as asked for; any other read gives nothing.
pub read-fill :
    (b : ReadBuffer) (now : ℕ) (path : FilePath) (offset : ℕ) (bytes : List ℕ) (later : ℕ)
    (asked : FilePath) (from len : ℕ)
    → IsValid b
    → offset + b.capacity < word_size
    → from + len < word_size
    → read (fill b now path offset bytes) later asked from len ≡ (
        if same_path asked path && (leb offset from && leb later (now + b.ttl))
        then take len (drop (from - offset) (take b.capacity bytes))
        else [])
unfolding read fill
read-fill b now path offset bytes later asked from len v h k = rw (← same) (
    ground (
      arith,
      length-take copied bytes,
      read_front b.buffer (take copied bytes) (from - offset) len,
      drop_of_length-le (from - offset) (take copied bytes),
      take_nil len,
    ))
  where
    copied : ℕ
    copied = min (length bytes) b.capacity

    same : take copied bytes ≡ take b.capacity bytes
    same = ap (λ n. take n bytes) (omega arith) ∙ take-min-length b.capacity bytes
