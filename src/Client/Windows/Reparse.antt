-- ===== src/Client/Windows/Reparse.antt =====
-- `parse_symlink_target` of client/src/fuse/windows.rs, which reads the target of a new symbolic link
-- from the buffer that Windows gives.
use remote_file_system.Prelude.{
  ℕ, zero, suc, ◌+◌, ◌-◌, ◌*◌, ◌/◌, ◌%◌, ◌^◌, ◌≤◌, ◌<◌, ◌≡◌, ◌≢◌, refl, sym, ap, ◌∙◌, Bool-cases,
  inl, inr, Option, none, some, List, [], ◌∷◌, ◌++◌, length, take, drop, ltb, ◌==◌, if◌then◌else◌,
  arith, slice, append-nil, length-append, length-take, length-drop,
}
use remote_file_system.Paths.{Text}
use remote_file_system.Action.{Outcome, ok, err, panicked}
use remote_file_system.Client.Windows.{
  Winfsp, invalid_parameter, FspError, nt_status, io_invalid_input,
}

-- `u16::from_le_bytes`, `u32::from_le_bytes`
unfoldable pub from_le_bytes : List ℕ → ℕ
from_le_bytes [] = 0
from_le_bytes (b ∷ bs) = b + 256 * from_le_bytes bs

-- So many units of two bytes; `none` is a slice that is too short.
unfoldable pub units : ℕ → List ℕ → Option (List ℕ)
units zero bytes = some []
units (suc n) (a ∷ b ∷ bytes) = elim (units n bytes) [
  | none ↦ none
  | some us ↦ some ((a + 256 * b) ∷ us)
]
units (suc n) (a ∷ []) = none
units (suc n) [] = none

abbrev pub io_reparse_tag_symlink : ℕ
io_reparse_tag_symlink = 0xa000000c

-- What is made of the units that a range of the buffer holds.
abbrev pub named : (List ℕ → Text) → Option (List ℕ) → Outcome FspError Text
named lossy none = panicked
named lossy (some us) = ok (lossy us)

-- The part after the tests of the length and the tag.
unfoldable pub print_name : (List ℕ → Text) → List ℕ → Outcome FspError Text
print_name lossy buf =
    let offset = from_le_bytes (slice buf 12 14) in
    let name_length = from_le_bytes (slice buf 14 16) in
    let start = 20 + offset in
    let end_of_name = start + name_length in
    if ltb (length buf) end_of_name
    then err io_invalid_input
    else named lossy (units (name_length / 2) (slice buf start end_of_name))

unfoldable pub parse_symlink_target : Winfsp → Option (List ℕ) → Outcome FspError Text
parse_symlink_target win none = err (nt_status invalid_parameter)
parse_symlink_target win (some buf) =
    if ltb (length buf) 20
    then err io_invalid_input
    else if from_le_bytes (slice buf 0 4) == io_reparse_tag_symlink
    then print_name win.to_string_lossy buf
    else err io_invalid_input

-- The layout of the buffer in the documentation of Windows: the tag, the length of what follows,
-- two bytes without use, the places and the lengths of two names, flags, and the two names.
abbrev pub le16 : ℕ → List ℕ
le16 n = n % 256 ∷ n / 256 % 256 ∷ []

unfoldable pub bytes_of_units : List ℕ → List ℕ
bytes_of_units [] = []
bytes_of_units (u ∷ us) = le16 u ++ bytes_of_units us

abbrev pub head_of_buffer : ℕ → ℕ → ℕ → List ℕ
head_of_buffer size substitute print =
    (0x0c ∷ 0x00 ∷ 0x00 ∷ 0xa0 ∷ [])
    ++ le16 size
    ++ (0 ∷ 0 ∷ 0 ∷ 0 ∷ [])
    ++ le16 substitute
    ++ le16 substitute
    ++ le16 print
    ++ (0 ∷ 0 ∷ 0 ∷ 0 ∷ [])

abbrev pub reparse_buffer : List ℕ → List ℕ → List ℕ
reparse_buffer substitute print =
    let names = bytes_of_units substitute ++ bytes_of_units print in
    head_of_buffer (12 + length names) (length (bytes_of_units substitute))
      (length (bytes_of_units print))
    ++ names

-- Every unit is below 2 ^ 16.
abbrev pub AllUnits : List ℕ → Type 0
AllUnits [] = Unit {0}
AllUnits (u ∷ us) = (u < 2 ^ 16) × AllUnits us

length-bytes_of_units : (us : List ℕ) → length (bytes_of_units us) ≡ 2 * length us
unfolding bytes_of_units
length-bytes_of_units [] = refl
length-bytes_of_units (u ∷ us) = omega (arith, length-bytes_of_units us)

units-bytes_of_units :
    (us rest : List ℕ) → AllUnits us → units (length us) (bytes_of_units us ++ rest) ≡ some us
unfolding units bytes_of_units
units-bytes_of_units [] rest h = refl
units-bytes_of_units (u ∷ us) rest h = ground (arith, units-bytes_of_units us rest h.1)

take_all : (l : List ℕ) → take (length l) l ≡ l
take_all [] = refl
take_all (x ∷ l) = ap (◌∷◌ x) (take_all l)

drop_front : (a b : List ℕ) → drop (length a) (a ++ b) ≡ b
drop_front [] b = refl
drop_front (x ∷ a) b = drop_front a b

units_enough :
    (n : ℕ) (bytes : List ℕ) → n * 2 ≤ length bytes → (us : List ℕ) × (units n bytes ≡ some us)
unfolding units
units_enough zero bytes h = ([], refl)
units_enough (suc n) [] h = absurd (omega arith)
units_enough (suc n) (a ∷ []) h = absurd (omega arith)
units_enough (suc n) (a ∷ b ∷ bytes) h =
    let (us, e) = units_enough n bytes (omega arith) in ((a + 256 * b) ∷ us, rw e refl)

length-slice :
    (buf : List ℕ) (start n : ℕ) → start + n ≤ length buf → length (slice buf start (start + n)) ≡ n
length-slice buf start n h =
    omega (arith, length-take (start + n - start) (drop start buf), length-drop start buf)

print_name_total : (lossy : List ℕ → Text) (buf : List ℕ) → print_name lossy buf ≢ panicked
unfolding print_name
print_name_total lossy buf =
    let start = 20 + from_le_bytes (slice buf 12 14) in
    let n = from_le_bytes (slice buf 14 16) in
    elim (Bool-cases (ltb (length buf) (start + n))) [
      | inl short ↦ (λ h. ground (arith, short, h))
      | inr fits ↦
          let (us, e) =
            units_enough (n / 2) (slice buf start (start + n))
              (omega (arith, length-slice buf start n (ground (arith, fits)))) in
          (λ h. ground (arith, fits, e, h))
    ]

-- Whatever buffer is given, or none, the target is read or an error is given: no range that is
-- looked at goes past the end of the buffer.
pub parse_symlink_target_total :
    (win : Winfsp) (buf : Option (List ℕ)) → parse_symlink_target win buf ≢ panicked
unfolding parse_symlink_target
parse_symlink_target_total win none h = ground (arith, h)
parse_symlink_target_total win (some buf) h =
    ground (arith, h, print_name_total win.to_string_lossy buf)

-- The offset and the length of the print name in the head of a buffer.
head_fields :
    (size substitute print : ℕ) (names : List ℕ)
    → substitute < 2 ^ 16
    → print < 2 ^ 16
    → let buf = head_of_buffer size substitute print ++ names in
      (from_le_bytes (slice buf 12 14) ≡ substitute)
      × (from_le_bytes (slice buf 14 16) ≡ print)
      × (from_le_bytes (slice buf 0 4) ≡ io_reparse_tag_symlink)
unfolding from_le_bytes
head_fields size substitute print names hs hp = (omega arith, omega arith, refl)

drop_nil : (n : ℕ) → drop {A = ℕ} n [] ≡ []
drop_nil zero = refl
drop_nil (suc n) = refl

drop-add : (n m : ℕ) (l : List ℕ) → drop (n + m) l ≡ drop m (drop n l)
drop-add zero m l = ap (λ k. drop k l) (let e : zero + m ≡ m = omega arith in e)
drop-add (suc n) m [] =
    ap (λ k. drop k []) (let e : suc n + m ≡ suc (n + m) = omega arith in e) ∙ sym (drop_nil m)
drop-add (suc n) m (x ∷ l) =
    ap (λ k. drop k (x ∷ l)) (let e : suc n + m ≡ suc (n + m) = omega arith in e) ∙ drop-add n m l

print_name_at :
    (lossy : List ℕ → Text) (buf : List ℕ) (offset n : ℕ) (us : List ℕ)
    → from_le_bytes (slice buf 12 14) ≡ offset
    → from_le_bytes (slice buf 14 16) ≡ n
    → 20 + offset + n ≤ length buf
    → units (n / 2) (slice buf (20 + offset) (20 + offset + n)) ≡ some us
    → print_name lossy buf ≡ ok (lossy us)
unfolding print_name
print_name_at lossy buf offset n us at_offset has_length fits e =
    ground (arith, at_offset, has_length, fits, e)

-- The print name in the buffer is the second of the two names.
slice_of_names :
    (size : ℕ) (a b : List ℕ)
    → let buf = head_of_buffer size (length a) (length b) ++ (a ++ b) in
      slice buf (20 + length a) (20 + length a + length b) ≡ b
slice_of_names size a b =
    let buf = head_of_buffer size (length a) (length b) ++ (a ++ b) in
    let names_from : drop (20 + length a) buf ≡ b = drop-add 20 (length a) buf ∙ drop_front a b in
    let long : 20 + length a + length b - (20 + length a) ≡ length b = omega arith in
    ap (λ k. take k (drop (20 + length a) buf)) long ∙ ap (take (length b)) names_from ∙ take_all b

units_of_print_name :
    (us : List ℕ)
    → AllUnits us
    → units (length (bytes_of_units us) / 2) (bytes_of_units us) ≡ some us
units_of_print_name us h =
    let half : length (bytes_of_units us) / 2 ≡ length us =
      omega (arith, length-bytes_of_units us) in
    ap (λ k. units k (bytes_of_units us)) half
    ∙ ap (units (length us)) (sym (append-nil (bytes_of_units us)))
    ∙ units-bytes_of_units us [] h

-- The target of a link is the print name in the buffer that Windows lays out for it, whatever the
-- substitute name, as far as 16 bits hold the lengths of both.
pub parse_symlink_target-reparse_buffer :
    (win : Winfsp) (substitute print : List ℕ)
    → AllUnits print
    → 2 * length substitute < 2 ^ 16
    → 2 * length print < 2 ^ 16
    → parse_symlink_target win (some (reparse_buffer substitute print))
      ≡ ok (win.to_string_lossy print)
unfolding parse_symlink_target
parse_symlink_target-reparse_buffer win substitute print all_units hs hp =
    let a = bytes_of_units substitute in
    let b = bytes_of_units print in
    let size = 12 + length (a ++ b) in
    let (at_offset, has_length, tagged) =
      head_fields size (length a) (length b) (a ++ b)
        (omega (arith, length-bytes_of_units substitute))
        (omega (arith, length-bytes_of_units print)) in
    let read =
      print_name_at win.to_string_lossy (reparse_buffer substitute print) (length a) (length b)
        print at_offset has_length (omega (arith, length-append a b))
        (ap (units (length b / 2)) (slice_of_names size a b)
          ∙ units_of_print_name print all_units) in
    ground (arith, tagged, read)
