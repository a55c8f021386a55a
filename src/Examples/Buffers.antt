-- ===== src/Examples/Buffers.antt =====
-- `WriteBuffer` and `ReadBuffer` of client/src/rw_buffer.rs on small inputs.
use remote_file_system.Prelude.{ℕ, refl, ◌∷◌, [], List, arith}
use remote_file_system.Paths.{FilePath, normal, root_dir}
use remote_file_system.Client.WriteBuffer.{WriteBuffer}
use remote_file_system.Client.WriteBuffer.Stream
use remote_file_system.Client.ReadBuffer.{ReadBuffer}

abbrev notes : FilePath
notes = root_dir ∷ normal (110 ∷ []) ∷ []

-- Two of four bytes are filled.
abbrev half_full : WriteBuffer
half_full = record {
  path = notes;
  offset = 10;
  valid_up_to = 2;
  buffer = 1 ∷ 2 ∷ 0 ∷ 0 ∷ [];
  capacity = 4;
}

half_full-IsValid : Stream.IsValid half_full
half_full-IsValid = record { storage = refl; filled = omega arith; end = omega arith }

abbrev three : List ℕ
three = 7 ∷ 8 ∷ 9 ∷ []

abbrev window : ReadBuffer
window = record {
  path = notes;
  offset = 0;
  valid_up_to = 0;
  filled_at = 0;
  buffer = 0 ∷ 0 ∷ 0 ∷ [];
  capacity = 3;
  ttl = 100;
}

abbrev four : List ℕ
four = 1 ∷ 2 ∷ 3 ∷ 4 ∷ []
