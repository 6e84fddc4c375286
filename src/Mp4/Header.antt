-- ===== src/Mp4/Header.antt =====
-- container/mp4/box.go: the header of a box that is written and read back.
use golive.Common.{
  ℕ, ◌+◌, ◌-◌, ◌*◌, ◌%◌, ◌^◌, ◌≡◌, refl, sym, ap, ◌∙◌, arith, Bool, false, not, ◌&&◌, ◌==◌, List,
  [], ◌++◌, drop, append_assoc, bit_or, ltb,
}
use golive.Common.Bits.{bit_or-field}
use golive.Common.Go.{ok, IsByte, IsU24, IsU32}
use golive.Common.Go.Reader.{Reader, bytes, read_full-prefix, Reads}
use golive.ByteIo.Get.{u8, u24_be, u32_be}
use golive.ByteIo.Put.{byte_at, put_u32_be}
use golive.ByteIo.RoundTrip.{u24_be-eq}
use golive.Mp4.{
  Box, FullBox, set_type_name, parse_box, serialize_box, serialize_full_box, parse_full_box,
  any_flag, box_type_mdat,
}
use golive.Mp4.Layout.{be32, write_u32_be-be32, u32_be-be32}

-- A box whose size has 32 bits, as the parsers make them.
pub record IsBox (b : Box) : Type 0 where
  pub size_32 : IsU32 b.size
  pub type_32 : IsU32 b.box_type
  pub named : b.type_name ≡ be32 b.box_type
  pub not_large : (b.size == 1 && not (b.box_type == box_type_mdat)) ≡ false

abbrev pub header_bytes : Box → List ℕ
header_bytes b = be32 b.size ++ be32 b.box_type

pub serialize_box-eq :
    (w : List ℕ) (b : Box) → IsBox b → serialize_box w b ≡ ok (w ++ header_bytes b)
unfolding serialize_box
serialize_box-eq w b v =
    let small : ltb (2 ^ 32 - 1) b.size ≡ false = (let h = v.size_32 in ground arith) in
    let same_size : b.size % 2 ^ 32 ≡ b.size = (let h = v.size_32 in omega arith) in
    rw (small, same_size, write_u32_be-be32 w b.size)
      (write_u32_be-be32 (w ++ be32 b.size) b.box_type
        ∙ ap ok (append_assoc w (be32 b.size) (be32 b.box_type)))

pub parse_box-Reads :
    (b : Box) (rest : List ℕ) (r : Reader)
    → IsBox b
    → bytes r ≡ header_bytes b ++ rest
    → Reads parse_box r (b, 8) rest
unfolding parse_box set_type_name put_u32_be
parse_box-Reads b rest r v e =
    let (r', p, q) = read_full-prefix (header_bytes b) rest r e in
    let size = u32_be-be32 b.size (be32 b.box_type) v.size_32 in
    let type : u32_be (be32 b.box_type) ≡ ok b.box_type = u32_be-be32 b.box_type [] v.type_32 in
    (
      r',
      rw (p, size, type, v.not_large)
          (ap (λ n. ok ((record { size = b.size; box_type = b.box_type; type_name = n }, 8), r'))
            (sym v.named)),
      q,
    )

pub record IsFull (f : FullBox) : Type 0 where
  pub is_box : IsBox f.box
  pub version_8 : IsByte f.version
  pub flags_24 : IsU24 f.flags24_bit

abbrev pub full_word : FullBox → ℕ
full_word f = f.version * 2 ^ 24 + f.flags24_bit

pub serialize_full_box-eq :
    (w : List ℕ) (f : FullBox)
    → IsFull f
    → serialize_full_box w f ≡ ok (w ++ header_bytes f.box ++ be32 (full_word f))
unfolding serialize_full_box
serialize_full_box-eq w f v =
    let h = v.version_8 in
    let whole : f.version * 2 ^ 24 % 2 ^ 32 ≡ f.version * 2 ^ 24 = omega arith in
    let both : bit_or (f.version * 2 ^ 24 % 2 ^ 32) f.flags24_bit ≡ full_word f =
      ap (λ n. bit_or n f.flags24_bit) whole ∙ bit_or-field 24 f.version f.flags24_bit v.flags_24 in
    rw (serialize_box-eq w f.box v.is_box, both)
      (write_u32_be-be32 (w ++ header_bytes f.box) (full_word f))

-- The full box is read where the parser allows its version and its flags.
pub parse_full_box-Reads :
    (f : FullBox) (expect_ver : ℕ) (is_any_ver : Bool) (expect_flag : ℕ) (rest : List ℕ)
    (r : Reader)
    → IsFull f
    → (not is_any_ver && not (f.version == expect_ver)) ≡ false
    → (not (expect_flag == any_flag) && not (f.flags24_bit == expect_flag)) ≡ false
    → bytes r ≡ be32 (full_word f) ++ rest
    → Reads (parse_full_box f.box expect_ver is_any_ver expect_flag) r (f, 4) rest
unfolding parse_full_box u8
parse_full_box-Reads f expect_ver is_any_ver expect_flag rest r v h1 h2 e =
    let (r', p, q) = read_full-prefix (be32 (full_word f)) rest r e in
    let hv = v.version_8 in
    let hf = v.flags_24 in
    let version : byte_at 24 (full_word f) ≡ f.version = omega arith in
    let flags : u24_be (drop 1 (be32 (full_word f))) ≡ ok f.flags24_bit =
      u24_be-eq _ _ _ [] (omega arith) (omega arith) (omega arith) ∙ ap ok (omega arith) in
    (r', rw (p, version, flags, h1, h2) refl, q)
