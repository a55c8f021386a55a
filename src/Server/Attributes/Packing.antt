-- ===== src/Server/Attributes/Packing.antt =====
-- Packing and unpacking of server/src/attributes.rs are inverse to each other.
use remote_file_system.Prelude.{
  ℕ, ◌+◌, ◌*◌, ◌/◌, ◌%◌, ◌<◌, ◌≡◌, refl, Bool, true, false, some, arith, ap, ◌∙◌,
}
use remote_file_system.Server.Attributes.{
  FileType, PermissionType, Permission, tag_of_file_type, file_type_of_tag, bit, has_bit,
  bits_of_permission_type, permission_type_of_bits, bits_of_permission, permission_of_bits,
}

bits_small : (p : PermissionType) → bits_of_permission_type p < 8
unfolding bits_of_permission_type
bits_small p = ground arith

bits_read_back :
    (r w x : Bool) (n : ℕ)
    → let value = n * 8 + (bit r 4 + bit w 2 + bit x 1) in
      (has_bit value 4 ≡ r) × (has_bit value 2 ≡ w) × (has_bit value 1 ≡ x)
bits_read_back true true true n = (ground arith, ground arith, ground arith)
bits_read_back true true false n = (ground arith, ground arith, ground arith)
bits_read_back true false true n = (ground arith, ground arith, ground arith)
bits_read_back true false false n = (ground arith, ground arith, ground arith)
bits_read_back false true true n = (ground arith, ground arith, ground arith)
bits_read_back false true false n = (ground arith, ground arith, ground arith)
bits_read_back false false true n = (ground arith, ground arith, ground arith)
bits_read_back false false false n = (ground arith, ground arith, ground arith)

permission_type_shift :
    (p : PermissionType) (n : ℕ) → permission_type_of_bits (n * 8 + bits_of_permission_type p) ≡ p
unfolding permission_type_of_bits bits_of_permission_type
permission_type_shift p n =
    let (r, w, x) = bits_read_back p.read p.write p.execute n in rw (r, w, x) refl

bits_of_permission_type-permission_type_of_bits :
    (value : ℕ) → bits_of_permission_type (permission_type_of_bits value) ≡ value % 8
unfolding permission_type_of_bits bits_of_permission_type
bits_of_permission_type-permission_type_of_bits value = ground arith

-- Unpacking the packed permissions gives the permissions, whatever bits stand above them, such as
-- those of the file's type or the set-user-id bit.
pub permission_of_bits-bits_of_permission :
    (p : Permission) (above : ℕ) → permission_of_bits (above * 512 + bits_of_permission p) ≡ p
unfolding permission_of_bits bits_of_permission
permission_of_bits-bits_of_permission p above =
    let u = bits_small p.user in
    let g = bits_small p.group in
    let o = bits_small p.other in
    let all = above * 512 + bits_of_permission p in
    let high : all / 64 ≡ above * 8 + bits_of_permission_type p.user = omega arith in
    let middle : all / 8
        ≡ (above * 8 + bits_of_permission_type p.user) * 8 + bits_of_permission_type p.group =
      omega arith in
    let low : all
        ≡ ((above * 8 + bits_of_permission_type p.user) * 8 + bits_of_permission_type p.group) * 8
          + bits_of_permission_type p.other =
      omega arith in
    let user = ap permission_type_of_bits high ∙ permission_type_shift p.user above in
    let group = ap permission_type_of_bits middle ∙ permission_type_shift p.group _ in
    let other = ap permission_type_of_bits low ∙ permission_type_shift p.other _ in
    rw (user, group, other) refl

-- Packing what was unpacked gives the lowest nine bits.
pub bits_of_permission-permission_of_bits :
    (value : ℕ) → bits_of_permission (permission_of_bits value) ≡ value % 512
unfolding permission_of_bits bits_of_permission permission_type_of_bits bits_of_permission_type
bits_of_permission-permission_of_bits value = omega (
  arith,
  bits_of_permission_type-permission_type_of_bits (value / 64),
  bits_of_permission_type-permission_type_of_bits (value / 8),
  bits_of_permission_type-permission_type_of_bits value,
)

-- Every file type is what its tag stands for.
pub file_type_of_tag-tag_of_file_type :
    (t : FileType) → file_type_of_tag (tag_of_file_type t) ≡ some t
unfolding file_type_of_tag tag_of_file_type
file_type_of_tag-tag_of_file_type t = ground arith
