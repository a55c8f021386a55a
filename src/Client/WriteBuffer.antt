-- ===== src/Client/WriteBuffer.antt =====
-- `WriteBuffer` of client/src/rw_buffer.rs: the bytes that were written and not yet sent.
pub mod Stream
use remote_file_system.Prelude.{
  ℕ, ◌+◌, ◌-◌, min, Option, none, some, isize_max, Bool, ◌&&◌, List, [], length, take, replicate,
  overwrite, add_usize, leb, ◌==◌, if◌then◌else◌,
}
use remote_file_system.Paths.{FilePath, same_path, FilePath-discrete, empty_path}

pub record WriteBuffer : Type 0 where
  pub path : FilePath
  pub offset : ℕ
  pub valid_up_to : ℕ
  pub buffer : List ℕ
  pub capacity : ℕ

-- A buffer of zeros.
unfoldable pub empty : ℕ → WriteBuffer
empty capacity = record {
  path = empty_path;
  offset = 0;
  valid_up_to = 0;
  buffer = replicate capacity 0;
  capacity = capacity;
}

-- `WriteBuffer::new`; `none` is the panic of `vec!` above `isize::MAX` bytes.
unfoldable pub new : ℕ → Option WriteBuffer
new capacity = if leb capacity isize_max then some (empty capacity) else none

abbrev pub is_appending : WriteBuffer → FilePath → ℕ → Bool
is_appending b path offset = same_path b.path path && add_usize b.offset b.valid_up_to == offset

-- The buffer after the call, and how many bytes it took.
unfoldable pub write : WriteBuffer → FilePath → ℕ → List ℕ → WriteBuffer × ℕ
write b path offset bytes =
    let appended = min (length bytes) (b.capacity - b.valid_up_to) in
    let started = min (length bytes) b.capacity in
    if is_appending b path offset
    then (
      record b {
        buffer = overwrite b.buffer b.valid_up_to (take appended bytes);
        valid_up_to = b.valid_up_to + appended;
      },
      appended,
    )
    else (
      record b {
        path = path;
        offset = offset;
        buffer = overwrite b.buffer 0 (take started bytes);
        valid_up_to = started;
      },
      started,
    )

unfoldable pub is_full : WriteBuffer → Bool
is_full b = leb b.capacity b.valid_up_to

unfoldable pub clean : WriteBuffer → WriteBuffer
clean b = record b { path = empty_path; offset = 0; valid_up_to = 0 }

unfoldable pub get_content : WriteBuffer → FilePath × ℕ × List ℕ
get_content b = (b.path, b.offset, take b.valid_up_to b.buffer)
