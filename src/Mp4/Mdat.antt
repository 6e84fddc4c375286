-- ===== src/Mp4/Mdat.antt =====
-- container/mp4/mdatBox.go: media data, with a size of 32 or 64 bits, written and read back.
use golive.Common.{
  ℕ, ◌+◌, ◌-◌, ◌%◌, ◌^◌, ◌≡◌, refl, ap, ◌∙◌, arith, Bool, true, false, ◌==◌, ltb, Bool-cases, inl,
  inr, List, [], ◌++◌, length, if◌then◌else◌,
}
use golive.Common.Go.{ok, ◌>>=◌, IsU32, IsU64}
use golive.Common.Go.Reader.{Reader, bytes, read_full-prefix, Reads}
use golive.Mp4.{
  Box, MdatBox, Parsed, box_type_mdat, parse_box, parse_mdat, read_contents, serialize_box,
  serialize_mdat,
}
use golive.Mp4.Layout.{be32, be64, write_u32_be-be32, write_u64_be-be64, u64_be-be64}
use golive.Mp4.Header.{IsBox, header_bytes, parse_box-Reads}

abbrev is_large : MdatBox → Bool
is_large b = ltb (2 ^ 32 - 1) b.box.size

abbrev pub parse_mdat_child : Reader → Parsed MdatBox
parse_mdat_child r = parse_box r >>= λ ((b, n), r1). parse_mdat b r1

-- Where the contents follow.
read_contents-Reads :
    (b : MdatBox) (box_len count : ℕ) (rest : List ℕ) (r : Reader)
    → b.box.size ≡ box_len + length b.contents
    → bytes r ≡ b.contents ++ rest
    → Reads (read_contents b.box box_len count) r (b, count + length b.contents) rest
unfolding read_contents
read_contents-Reads b box_len count rest r h e =
    let (r', p, q) = read_full-prefix b.contents rest r e in
    let fits : ltb b.box.size box_len ≡ false = ground arith in
    let size : b.box.size - box_len ≡ length b.contents = omega arith in
    (r', rw (fits, size, p) refl, q)

-- Media data with the type and the name of its kind.
pub record IsMdat (b : MdatBox) : Type 0 where
  pub kind : b.box.box_type ≡ box_type_mdat
  pub named : b.box.type_name ≡ be32 b.box.box_type

small-Reads :
    (b : MdatBox) (rest : List ℕ) (r : Reader)
    → IsMdat b
    → b.box.size ≡ 8 + length b.contents
    → IsU32 b.box.size
    → bytes r ≡ (header_bytes b.box ++ b.contents) ++ rest
    → Reads parse_mdat_child r (b, length (header_bytes b.box ++ b.contents) - 8) rest
unfolding parse_mdat
small-Reads b rest r v h small e =
    let kind = v.kind in
    let is_box : IsBox b.box = record {
      size_32 = small;
      type_32 = omega arith;
      named = v.named;
      not_large = (let no : (b.box.size == 1) ≡ false = ground arith in rw no refl);
    } in
    let (r1, p1, q1) = parse_box-Reads b.box (b.contents ++ rest) r is_box e in
    let no : (b.box.size == 1) ≡ false = ground arith in
    let (r2, p2, q2) = read_contents-Reads b 8 0 rest r1 h q1 in
    (
      r2,
      rw (p1, no, p2)
          (ap (λ n. ok ((b, n), r2))
            (let z : 0 + length b.contents ≡ length (header_bytes b.box ++ b.contents) - 8 =
                omega arith in
              z)),
      q2,
    )

large_bytes : MdatBox → List ℕ
large_bytes b = be32 1 ++ (be32 b.box.box_type ++ (be64 b.box.size ++ b.contents))

large-Reads :
    (b : MdatBox) (rest : List ℕ) (r : Reader)
    → IsMdat b
    → b.box.size ≡ 16 + length b.contents
    → IsU64 b.box.size
    → bytes r ≡ large_bytes b ++ rest
    → Reads parse_mdat_child r (b, length (large_bytes b) - 8) rest
unfolding parse_mdat large_bytes
large-Reads b rest r v h large e =
    let first : Box = record { size = 1; box_type = b.box.box_type; type_name = b.box.type_name } in
    let kind = v.kind in
    let is_kind : (b.box.box_type == box_type_mdat) ≡ true = ground arith in
    let is_box : IsBox first = record {
      size_32 = omega arith;
      type_32 = omega arith;
      named = v.named;
      not_large = rw is_kind refl;
    } in
    let (r1, p1, q1) = parse_box-Reads first (be64 b.box.size ++ (b.contents ++ rest)) r is_box e in
    let (r2, p2, q2) = read_full-prefix (be64 b.box.size) (b.contents ++ rest) r1 q1 in
    let (r3, p3, q3) = read_contents-Reads b 16 8 rest r2 h q2 in
    let count : 8 + length b.contents ≡ length (large_bytes b) - 8 = omega arith in
    (r3, rw (p1, p2, u64_be-be64 b.box.size large) (p3 ∙ ap (λ n. ok ((b, n), r3)) count), q3)

-- What is written of media data, which is two different headers.
pub mdat_bytes : MdatBox → List ℕ
mdat_bytes b = if is_large b then large_bytes b else header_bytes b.box ++ b.contents

-- The size counts the header, of 8 bytes up to 32 bits and of 16 bytes above.
unfoldable pub IsSized : MdatBox → Type 0
IsSized b = b.box.size ≡ (if is_large b then 16 else 8) + length b.contents

-- Media data with the type and the name of its kind, whose size is that of its header and its contents
-- and has up to 64 bits, is written without an error, with a header of 16 bytes if the
-- size has more than 32 bits, and from the bytes written, with anything after them, in every
-- segmentation, ParseBox and the parser of media data return it and leave what follows.
pub mdat-Reads :
    (b : MdatBox) (rest : List ℕ) (r : Reader)
    → IsMdat b
    → IsSized b
    → IsU64 b.box.size
    → bytes r ≡ mdat_bytes b ++ rest
    → (serialize_mdat [] b ≡ ok (mdat_bytes b))
      × Reads parse_mdat_child r (b, length (mdat_bytes b) - 8) rest
unfolding mdat_bytes IsSized large_bytes serialize_mdat serialize_box
mdat-Reads b rest r v sized h e = elim (Bool-cases (is_large b)) [
  | inl large ↦
      let size : b.box.size ≡ 16 + length b.contents = rw large at sized in
      let stream : bytes r ≡ large_bytes b ++ rest = rw large at e in
      (
        rw
            (
              large,
              write_u32_be-be32 [] 1,
              write_u32_be-be32 (be32 1) b.box.box_type,
              write_u64_be-be64 (be32 1 ++ be32 b.box.box_type) b.box.size,
            )
            refl,
        rw large (large-Reads b rest r v size h stream),
      )
  | inr small ↦
      let size : b.box.size ≡ 8 + length b.contents = rw small at sized in
      let stream : bytes r ≡ (header_bytes b.box ++ b.contents) ++ rest = rw small at e in
      let small_size : IsU32 b.box.size = ground arith in
      let mod_size : b.box.size % 2 ^ 32 ≡ b.box.size = omega arith in
      (
        rw
            (
              small,
              mod_size,
              write_u32_be-be32 [] b.box.size,
              write_u32_be-be32 (be32 b.box.size) b.box.box_type,
            )
            refl,
        rw small (small-Reads b rest r v size small_size stream),
      )
]
