-- ===== src/Client/Model/Uploads.antt =====
-- What the buffered writes of client/src/fs_model.rs send to the server: the bytes of `write_file`,
-- each at its place, as the writes gave them.
use remote_file_system.Prelude.{
  ℕ, suc, ◌+◌, ◌<◌, ◌≡◌, refl, ap, List, [], ◌∷◌, ◌++◌, length, take, word_size, arith, length-take,
  append-nil, append_assoc, Bool, true, false, Bool-cases, inl, inr, if◌then◌else◌,
}
use remote_file_system.Paths.{FilePath}
use remote_file_system.Client.WriteBuffer.{
  WriteBuffer, is_appending, write, get_content, clean, is_full,
}
use remote_file_system.Client.WriteBuffer.Stream.{IsValid, write-IsValid, get_content-write}
use remote_file_system.Client.Model.Data.{Upload, is_empty, drain, stage}

-- A byte and the place it goes to.
abbrev pub Cell : Type 0
Cell = FilePath × ℕ × ℕ

unfoldable pub cells_from : FilePath → ℕ → List ℕ → List Cell
cells_from path offset [] = []
cells_from path offset (x ∷ xs) = (path, offset, x) ∷ cells_from path (suc offset) xs

abbrev pub cells : Upload → List Cell
cells (path, offset, bytes) = cells_from path offset bytes

unfoldable pub all_cells : List Upload → List Cell
all_cells [] = []
all_cells (u ∷ us) = cells u ++ all_cells us

cells_from-append :
    (path : FilePath) (offset : ℕ) (a b : List ℕ)
    → cells_from path offset (a ++ b)
      ≡ cells_from path offset a ++ cells_from path (offset + length a) b
unfolding cells_from
cells_from-append path offset [] b = ground arith
cells_from-append path offset (x ∷ a) b = ground (arith, cells_from-append path (suc offset) a b)

all_cells-append : (us vs : List Upload) → all_cells (us ++ vs) ≡ all_cells us ++ all_cells vs
unfolding all_cells
all_cells-append [] vs = refl
all_cells-append (u ∷ us) vs = rw (all_cells-append us vs, append_assoc)

-- The content of the buffer, as the bytes that wait to be sent.
abbrev pub pending : WriteBuffer → List Cell
pending b = cells (get_content b)

pub pending-clean : (b : WriteBuffer) → pending (clean b) ≡ []
unfolding get_content clean cells_from
pending-clean b = refl

unless_empty : (u : Upload) → all_cells (if is_empty u.2 then [] else u ∷ []) ≡ cells u
unfolding all_cells cells_from
unless_empty (p, o, []) = refl
unless_empty (p, o, x ∷ xs) = append-nil _

pub cells-is_empty : (u : Upload) → is_empty u.2 ≡ true → cells u ≡ []
unfolding cells_from
cells-is_empty (p, o, []) h = refl
cells-is_empty (p, o, x ∷ xs) h = ground arith

pub drain_lem : (b : WriteBuffer) → all_cells (drain b) ≡ pending b
drain_lem b = unless_empty (get_content b)

clean-IsValid : (b : WriteBuffer) → IsValid b → IsValid (clean b)
unfolding clean
clean-IsValid b v = ground arith

is_appending_at :
    (b : WriteBuffer) (path : FilePath) (offset : ℕ)
    → IsValid b
    → is_appending b path offset ≡ true
    → (b.path ≡ path) × (b.offset + length (get_content b).2 ≡ offset)
unfolding get_content
is_appending_at b path offset v e = ground (arith, length-take b.valid_up_to b.buffer)

pending-write_fields :
    (b : WriteBuffer) (path : FilePath) (offset : ℕ) (bytes : List ℕ)
    → IsValid b
    → pending (write b path offset bytes).0
      ≡ (if is_appending b path offset then cells_from b.path b.offset (get_content b).2 else [])
        ++ cells (path, offset, take (write b path offset bytes).1 bytes)
pending-write_fields b path offset bytes v = elim (Bool-cases (is_appending b path offset)) [
  | inl e ↦
      let (p, o) = is_appending_at b path offset v e in
      rw (get_content-write b path offset bytes v, e, cells_from-append, o)
        (ap
          (λ q.
            cells_from b.path b.offset (get_content b).2
            ++ cells (q, offset, take (write b path offset bytes).1 bytes))
          p)
  | inr e ↦ rw (get_content-write b path offset bytes v, e) refl
]

pending-write :
    (b : WriteBuffer) (path : FilePath) (offset : ℕ) (bytes : List ℕ)
    → IsValid b
    → pending (write b path offset bytes).0
      ≡ (if is_appending b path offset then pending b else [])
        ++ cells (path, offset, take (write b path offset bytes).1 bytes)
unfolding get_content
pending-write = pending-write_fields

if_same : (c : Bool) (l : List Cell) → (if c then l else l) ≡ l
if_same true l = refl
if_same false l = refl

all_cells-one : (u : Upload) → all_cells (u ∷ []) ≡ cells u
unfolding all_cells
all_cells-one u = append-nil _

-- The last part of `stage`, after the write: a full buffer joins the uploads.
abbrev sent : WriteBuffer → ℕ → List Upload → WriteBuffer × ℕ × List Upload
sent b written uploads =
    if is_full b then (clean b, written, uploads ++ get_content b ∷ []) else (b, written, uploads)

all_cells-sent :
    (b : WriteBuffer) (written : ℕ) (us : List Upload)
    → let r = sent b written us in
      (all_cells r.2 ++ pending r.0 ≡ all_cells us ++ pending b) × (r.1 ≡ written)
all_cells-sent b written us = elim (Bool-cases (is_full b)) [
  | inl e ↦ rw e (rw (all_cells-append, all_cells-one, pending-clean, append-nil) refl, refl)
  | inr e ↦ rw e (refl, refl)
]

-- A write to a valid buffer: what is handed over for upload, followed by what still waits, is what
-- waited before, followed by the bytes that the write took, each at its place and in this order.
pub stage_keeps_order :
    (b : WriteBuffer) (path : FilePath) (offset : ℕ) (bytes : List ℕ)
    → IsValid b
    → let (b', written, uploads) = stage b path offset bytes in
      all_cells uploads ++ pending b' ≡ pending b ++ cells (path, offset, take written bytes)
unfolding stage all_cells
stage_keeps_order b path offset bytes v = elim (Bool-cases (is_appending b path offset)) [
  | inl e ↦ rw e (
      let (kept, same) =
        all_cells-sent (write b path offset bytes).0 (write b path offset bytes).1 [] in
      rw (kept, same, pending-write b path offset bytes v, e) refl)
  | inr e ↦ rw e (
      let (kept, same) =
        all_cells-sent (write (clean b) path offset bytes).0 (write (clean b) path offset bytes).1
          (drain b) in
      rw
        (
          kept,
          same,
          drain_lem,
          pending-write (clean b) path offset bytes (clean-IsValid b v),
          pending-clean,
          if_same,
        )
        refl)
]

-- A buffer with room.
abbrev pub HasRoom : WriteBuffer → Type 0
HasRoom b = b.valid_up_to < b.capacity

capacity-write :
    (b : WriteBuffer) (path : FilePath) (offset : ℕ) (bytes : List ℕ)
    → (write b path offset bytes).0.capacity ≡ b.capacity
unfolding write
capacity-write b path offset bytes = ground arith

room_after :
    (b : WriteBuffer) (written : ℕ) (us : List Upload)
    → IsValid b
    → 0 < b.capacity
    → let b' = (sent b written us).0 in IsValid b' × HasRoom b'
unfolding is_full clean
room_after b written us v h = ground arith

sent-capacity :
    (b : WriteBuffer) (written : ℕ) (us : List Upload) → (sent b written us).0.capacity ≡ b.capacity
unfolding clean
sent-capacity b written us = ground arith

pub stage-capacity :
    (b : WriteBuffer) (path : FilePath) (offset : ℕ) (bytes : List ℕ)
    → (stage b path offset bytes).0.capacity ≡ b.capacity
unfolding stage clean
stage-capacity b path offset bytes = elim (Bool-cases (is_appending b path offset)) [
  | inl e ↦ rw (e, sent-capacity) (capacity-write b path offset bytes)
  | inr e ↦ rw (e, sent-capacity) (capacity-write (clean b) path offset bytes)
]

-- After any write that fits the offsets of a file, a valid buffer with room is valid and has room
-- again.
pub stage-HasRoom :
    (b : WriteBuffer) (path : FilePath) (offset : ℕ) (bytes : List ℕ)
    → IsValid b
    → HasRoom b
    → offset + b.capacity < word_size
    → let b' = (stage b path offset bytes).0 in IsValid b' × HasRoom b'
unfolding stage clean
stage-HasRoom b path offset bytes v r h = elim (Bool-cases (is_appending b path offset)) [
  | inl e ↦ rw e (room_after _ _ [] (write-IsValid b path offset bytes v h) (positive b refl))
  | inr e ↦ rw e (
      room_after _ _ (drain b) (write-IsValid (clean b) path offset bytes (clean-IsValid b v) h)
        (positive (clean b) refl))
]
  where
    positive :
        (d : WriteBuffer) → d.capacity ≡ b.capacity → 0 < (write d path offset bytes).0.capacity
    positive d e = rw (capacity-write d path offset bytes, e) (omega (arith, r))

write_progress :
    (b : WriteBuffer) (path : FilePath) (offset : ℕ) (bytes : List ℕ)
    → HasRoom b
    → 0 < length bytes
    → 0 < (write b path offset bytes).1
unfolding write
write_progress b path offset bytes r h = ground arith

-- A write of at least one byte to a buffer with room takes at least one byte.
pub stage_progress :
    (b : WriteBuffer) (path : FilePath) (offset : ℕ) (bytes : List ℕ)
    → HasRoom b
    → 0 < length bytes
    → 0 < (stage b path offset bytes).1
unfolding stage clean
stage_progress b path offset bytes r h = elim (Bool-cases (is_appending b path offset)) [
  | inl e ↦ rw (e, (all_cells-sent _ _ _).1) (write_progress b path offset bytes r h)
  | inr e ↦
      rw (e, (all_cells-sent _ _ _).1)
        (write_progress (clean b) path offset bytes (omega (arith, r)) h)
]
