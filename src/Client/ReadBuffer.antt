-- ===== src/Client/ReadBuffer.antt =====
-- `ReadBuffer` of client/src/rw_buffer.rs: one run of bytes read ahead from the server, kept for
-- 100 milliseconds. A reading of `Instant::now` is the argument `now`, in milliseconds.
pub mod Window
use remote_file_system.Prelude.{
  ℕ, ◌+◌, ◌-◌, min, Option, none, some, isize_max, Bool, not, ◌||◌, List, [], length, take, slice,
  replicate, overwrite, add_usize, leb, ltb, if◌then◌else◌,
}
use remote_file_system.Paths.{FilePath, same_path, FilePath-discrete, empty_path}

pub record ReadBuffer : Type 0 where
  pub path : FilePath
  pub offset : ℕ
  pub valid_up_to : ℕ
  pub filled_at : ℕ
  pub buffer : List ℕ
  pub capacity : ℕ
  pub ttl : ℕ

-- A buffer of zeros.
unfoldable pub empty : ℕ → ℕ → ReadBuffer
empty now capacity = record {
  path = empty_path;
  offset = 0;
  valid_up_to = 0;
  filled_at = now;
  buffer = replicate capacity 0;
  capacity = capacity;
  ttl = 100;
}

-- `ReadBuffer::new`; `none` is the panic of `vec!` above `isize::MAX` bytes.
unfoldable pub new : ℕ → ℕ → Option ReadBuffer
new now capacity = if leb capacity isize_max then some (empty now capacity) else none

unfoldable pub fill : ReadBuffer → ℕ → FilePath → ℕ → List ℕ → ReadBuffer
fill b now path offset bytes =
    let to_copy = min (length bytes) b.capacity in
    record b {
      path = path;
      offset = offset;
      filled_at = now;
      buffer = overwrite b.buffer 0 (take to_copy bytes);
      valid_up_to = to_copy;
    }

-- The test of `read` for a miss.
abbrev pub misses : ReadBuffer → ℕ → FilePath → ℕ → Bool
misses b now path offset =
    not (same_path path b.path)
    || (ltb offset b.offset
        || (leb (add_usize b.offset b.valid_up_to) offset || ltb (b.filled_at + b.ttl) now))

unfoldable pub read : ReadBuffer → ℕ → FilePath → ℕ → ℕ → List ℕ
read b now path offset len =
    if misses b now path offset
    then []
    else slice b.buffer (offset - b.offset) (min (add_usize (offset - b.offset) len) b.valid_up_to)
