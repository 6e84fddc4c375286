-- ===== src/Flv/RoundTrip.antt =====
-- FLV tags by their layout, and that `ParseTag` reads them.
use golive.Common.{ℕ, ◌+◌, ◌*◌, ◌%◌, ◌^◌, ◌≡◌, ap, sym, ◌∙◌, arith}
use golive.Common.{List, [], ◌∷◌, ◌++◌, length, bit_or, append_assoc}
use golive.Common.Bits.{bit_or-high}
use golive.Common.Go.{ok, IsByte, IsU24, IsU32}
use golive.Common.Go.Reader.{Reader, bytes, Reads, read_full, read_full-prefix}
use golive.ByteIo.Get.{u8, u24_be, u32_be}
use golive.ByteIo.Put.{byte_at}
use golive.ByteIo.RoundTrip.{u24_be-eq, u32_be-eq}
use golive.Flv.{FlvTag, parse_tag}

abbrev be24 : ℕ → List ℕ → List ℕ
be24 v rest = byte_at 16 v ∷ byte_at 8 v ∷ byte_at 0 v ∷ rest

abbrev be32 : ℕ → List ℕ → List ℕ
be32 v rest = byte_at 24 v ∷ be24 v rest

-- The eleven bytes before the data.
abbrev tag_header : FlvTag → List ℕ
tag_header tag =
    tag.tag_type
    ∷ be24 tag.data_size24 (be24 tag.timestamp24 (tag.timestamp_ext ∷ be24 tag.stream_id []))

-- A tag as the FLV format lays it out, with the size of the tag behind it.
abbrev pub tag_bytes : FlvTag → List ℕ
tag_bytes tag = tag_header tag ++ (tag.payload ++ be32 (tag.data_size24 + 11) [])

pub record IsTag (tag : FlvTag) : Type 0 where
  pub size_24 : IsU24 tag.data_size24
  pub size_eq : length tag.payload ≡ tag.data_size24
  pub low_24 : IsU24 tag.timestamp24
  pub ext_byte : IsByte tag.timestamp_ext
  pub time_eq : tag.timestamp ≡ tag.timestamp_ext * 2 ^ 24 + tag.timestamp24
  pub stream_24 : IsU24 tag.stream_id

u24_be-be24 : (v : ℕ) (rest : List ℕ) → IsU24 v → u24_be (be24 v rest) ≡ ok v
u24_be-be24 v rest h =
    u24_be-eq _ _ _ rest (omega arith) (omega arith) (omega arith) ∙ ap ok (omega arith)

u32_be-be32 : (v : ℕ) (rest : List ℕ) → IsU32 v → u32_be (be32 v rest) ≡ ok v
u32_be-be32 v rest h =
    u32_be-eq _ _ _ _ rest (omega arith) (omega arith) (omega arith) (omega arith)
    ∙ ap ok (omega arith)

timestamp_joined :
    (tag : FlvTag)
    → IsTag tag
    → bit_or tag.timestamp24 (tag.timestamp_ext * 2 ^ 24 % 2 ^ 32) ≡ tag.timestamp
timestamp_joined tag h =
    let fits : tag.timestamp_ext * 2 ^ 24 % 2 ^ 32 ≡ tag.timestamp_ext * 2 ^ 24 =
      omega (arith, h.ext_byte) in
    ap (bit_or tag.timestamp24) fits
    ∙ bit_or-high 24 tag.timestamp_ext tag.timestamp24 h.low_24
    ∙ sym h.time_eq

-- `ParseTag` from what its three reads return.
parse_tag_of_reads :
    (tag : FlvTag) (r r1 r2 r3 : Reader)
    → IsTag tag
    → read_full 11 r ≡ ok (tag_header tag, r1)
    → read_full tag.data_size24 r1 ≡ ok (tag.payload, r2)
    → read_full 4 r2 ≡ ok (be32 (tag.data_size24 + 11) [], r3)
    → parse_tag r ≡ ok (tag, r3)
unfolding parse_tag u8
parse_tag_of_reads tag r r1 r2 r3 h p1 p2 p3 =
    let size : (tag.data_size24 + 11) % 2 ^ 32 ≡ tag.data_size24 + 11 = omega (arith, h.size_24) in
    rw
      (
        p1,
        u24_be-be24 tag.data_size24 _ h.size_24,
        u24_be-be24 tag.timestamp24 _ h.low_24,
        u24_be-be24 tag.stream_id [] h.stream_24,
        p2,
        p3,
        u32_be-be32 (tag.data_size24 + 11) [] (omega (arith, h.size_24)),
        timestamp_joined tag h,
        size,
      )
      (ground arith)

-- A tag whose fields fit and whose size is that of its data is parsed from its layout, in every
-- segmentation of the stream, and what follows it is left.
pub parse_tag-Reads :
    (tag : FlvTag) (rest : List ℕ) (r : Reader)
    → IsTag tag
    → bytes r ≡ tag_bytes tag ++ rest
    → Reads parse_tag r tag rest
parse_tag-Reads tag rest r h e =
    let len = be32 (tag.data_size24 + 11) [] in
    let (r1, p1, q1) = read_full-prefix (tag_header tag) (tag.payload ++ (len ++ rest)) r (
      e
      ∙ append_assoc (tag_header tag) (tag.payload ++ len) rest
      ∙ ap (λ l. tag_header tag ++ l) (append_assoc tag.payload len rest)) in
    let (r2, p2, q2) = read_full-prefix tag.payload (len ++ rest) r1 q1 in
    let (r3, p3, q3) = read_full-prefix len rest r2 q2 in
    (r3, parse_tag_of_reads tag r r1 r2 r3 h p1 (rw h.size_eq at p2) p3, q3)
