-- ===== src/Mp4.antt =====
-- container/mp4/box.go, mdatBox.go: the header of a box, what every full box begins with, and the
-- boxes that are kept as bytes. `ExtendedType`, which nothing sets, is left out.
pub mod Fragment
pub mod Layout
pub mod Header
pub mod Trun
pub mod Track
pub mod Mdat
pub mod Tree
mod Examples
use golive.Common.{
  ℕ, zero, suc, ◌+◌, ◌-◌, ◌*◌, ◌%◌, ◌^◌, Bool, true, false, not, ◌&&◌, List, [], ◌∷◌,
}
use golive.Common.{◌++◌, drop, ◌==◌, ltb, if◌then◌else◌, bit_or}
use golive.Common.Go.{
  Result, ok, err, panic, ◌>>=◌, large_size, unexpected_version, unexpected_flags,
}
use golive.Common.Go.Reader.{Reader, read_full}
use golive.ByteIo.Get.{u8, u24_be, u32_be, u64_be}
use golive.ByteIo.Put.{put_u32_be, write_u32_be, write_u64_be}

pub record Box : Type 0 where
  pub size : ℕ
  pub box_type : ℕ
  pub type_name : List ℕ

pub record FullBox : Type 0 where
  pub box : Box
  pub version : ℕ
  pub flags24_bit : ℕ

-- What a parser returns: the box and the number of bytes that it has read, and the rest.
abbrev pub Parsed : Type 0 → Type 0
Parsed A = Result ((A × ℕ) × Reader)

abbrev pub box_type_mdat : ℕ
box_type_mdat = 0x6d646174

-- `setTypeName`
unfoldable pub set_type_name : Box → Result Box
set_type_name b = do
  name ← put_u32_be (0 ∷ 0 ∷ 0 ∷ 0 ∷ []) b.box_type
  ok (record b { type_name = name })

unfoldable pub new_type_box : ℕ → Result Box
new_type_box t = set_type_name (record { size = 8; box_type = t; type_name = [] })

unfoldable pub new_type_full_box : ℕ → ℕ → ℕ → Result FullBox
new_type_full_box t version flags = do
  b ← new_type_box t
  ok (record { box = record b { size = 12 }; version = version; flags24_bit = flags })

-- `ParseBox`. The 64 bits of a large size are left to the parser of the box.
unfoldable pub parse_box : Reader → Parsed Box
parse_box r = do
  (buf, r') ← read_full 8 r
  size ← u32_be buf
  t ← u32_be (drop 4 buf)
  b ← set_type_name (record { size = size; box_type = t; type_name = [] })
  if size == 1 && not (t == box_type_mdat) then err large_size else ok ((b, 8), r')

-- `Box.Serialize`, onto what is written. The numbers of bytes that the writers return, which are those
-- that they add, are left out.
unfoldable pub serialize_box : List ℕ → Box → Result (List ℕ)
serialize_box w b =
    if ltb (2 ^ 32 - 1) b.size
    then (do w1 ← write_u32_be w 1; w2 ← write_u32_be w1 b.box_type; write_u64_be w2 b.size)
    else (do w1 ← write_u32_be w (b.size % 2 ^ 32); write_u32_be w1 b.box_type)

unfoldable pub serialize_full_box : List ℕ → FullBox → Result (List ℕ)
serialize_full_box w b = do
  w1 ← serialize_box w b.box
  write_u32_be w1 (bit_or (b.version * 2 ^ 24 % 2 ^ 32) b.flags24_bit)

-- `FULLBOX_ANY_FLAG`
abbrev pub any_flag : ℕ
any_flag = 0xffffffff

-- `FullBox.Parse`
unfoldable pub parse_full_box : Box → ℕ → Bool → ℕ → Reader → Parsed FullBox
parse_full_box b expect_ver is_any_ver expect_flag r = do
  (buf, r') ← read_full 4 r
  version ← u8 buf
  flags ← u24_be (drop 1 buf)
  if not is_any_ver && not (version == expect_ver)
      then err (unexpected_version version)
      else if not (expect_flag == any_flag) && not (flags == expect_flag)
      then err (unexpected_flags flags)
      else ok ((record { box = b; version = version; flags24_bit = flags }, 4), r')

unfoldable pub uint32_serialize : List ℕ → List ℕ → Result (List ℕ)
uint32_serialize w [] = ok w
uint32_serialize w (n ∷ nums) = do w1 ← write_u32_be w n; uint32_serialize w1 nums

-- A box whose data is kept as it is.
pub record UnsupportedBox : Type 0 where
  pub box : Box
  pub raw_data : List ℕ

-- `UnsupporttedBox.Parse`: `make` of a negative length panics.
unfoldable pub parse_unsupported_box : Box → Reader → Parsed UnsupportedBox
parse_unsupported_box b r = if ltb b.size 8 then panic else (do
  (raw, r') ← read_full (b.size - 8) r
  ok ((record { box = b; raw_data = raw }, b.size - 8), r'))

unfoldable pub serialize_unsupported_box : List ℕ → UnsupportedBox → Result (List ℕ)
serialize_unsupported_box w b = do w1 ← serialize_box w b.box; ok (w1 ++ b.raw_data)

pub record MdatBox : Type 0 where
  pub box : Box
  pub contents : List ℕ

-- `b.Data = make([]byte, b.Size-boxLen)`: a size below the length of the header wraps around to one
-- that `make` panics at.
unfoldable pub read_contents : Box → ℕ → ℕ → Reader → Parsed MdatBox
read_contents b box_len count r = if ltb b.size box_len then panic else (do
  (contents, r') ← read_full (b.size - box_len) r
  ok ((record { box = b; contents = contents }, count + (b.size - box_len)), r'))

-- `MdatBox.Parse`
unfoldable pub parse_mdat : Box → Reader → Parsed MdatBox
parse_mdat b r =
    if b.size == 1
    then (do
      (buf, r1) ← read_full 8 r
      size ← u64_be buf
      read_contents (record b { size = size }) 16 8 r1)
    else read_contents b 8 0 r

unfoldable pub serialize_mdat : List ℕ → MdatBox → Result (List ℕ)
serialize_mdat w b = do w1 ← serialize_box w b.box; ok (w1 ++ b.contents)
