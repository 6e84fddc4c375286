-- ===== src/Rtmp/Chunk/MessageHeader.antt =====
-- The message headers: what the writers put for types 0, 1 and 2, and that the readers get it back.
use golive.Common.{ℕ, ◌+◌, ◌*◌, ◌<◌, ◌≤◌, ◌≡◌, ap, ◌∙◌, arith}
use golive.Common.{false, List, [], ◌∷◌, ◌++◌, append_assoc}
use golive.Common.Go.{ok, IsU24, IsU32}
use golive.Common.Go.Reader.{Reader, bytes, first_length, Reads, read_full-prefix}
use golive.ByteIo.Put.{byte_at, write_u24_be, write_u32_le}
use golive.ByteIo.Stream.{read_uint24_be}
use golive.ByteIo.Segments.{read_uint24_be-whole, read_uint8-whole, read_uint32_le-whole}
use golive.Rtmp.Chunk.{ChunkMessageHeader, zero_header}
use golive.Rtmp.Chunk.Read.{read_chunk_message_header, with_ext_timestamp}
use golive.Rtmp.Chunk.Read.{read_chunk_message_header_type0, read_chunk_message_header_type1}
use golive.Rtmp.Chunk.Read.{read_chunk_message_header_type2}
use golive.Rtmp.Chunk.Write.{serializer_chunk_message_header, serializer_chunk_delta_time}
use golive.Rtmp.Chunk.Write.{serializer_chunk_message_header_type1}
use golive.Rtmp.Chunk.Write.{serializer_chunk_message_header_no_stream_id}

abbrev pub be24 : ℕ → List ℕ → List ℕ
be24 v rest = byte_at 16 v ∷ byte_at 8 v ∷ byte_at 0 v ∷ rest

abbrev pub le32 : ℕ → List ℕ → List ℕ
le32 v rest = byte_at 0 v ∷ byte_at 8 v ∷ byte_at 16 v ∷ byte_at 24 v ∷ rest

-- The bytes of a type 1 and of a type 0 header that has no extended timestamp.
abbrev pub type1_bytes : ChunkMessageHeader → List ℕ → List ℕ
type1_bytes h rest = be24 h.time_delta (be24 h.message_length (h.message_type_id ∷ rest))

abbrev pub type0_bytes : ChunkMessageHeader → List ℕ → List ℕ
type0_bytes h rest = type1_bytes h (le32 h.message_stream_id rest)

no_stream_id :
    (h : ChunkMessageHeader) (w : List ℕ)
    → serializer_chunk_message_header_no_stream_id h w ≡ ok (w ++ type1_bytes h [])
unfolding serializer_chunk_message_header_no_stream_id write_u24_be
no_stream_id h w = simp append_assoc

pub serializer_header_type1 :
    (h : ChunkMessageHeader) (w : List ℕ)
    → h.timestamp ≤ 0xffffff
    → serializer_chunk_message_header_type1 h w ≡ ok (w ++ type1_bytes h [])
unfolding serializer_chunk_message_header_type1
serializer_header_type1 h w small = rw (no_stream_id h w) (ground arith)

pub serializer_header_type0 :
    (h : ChunkMessageHeader) (w : List ℕ)
    → h.timestamp ≤ 0xffffff
    → serializer_chunk_message_header h w ≡ ok (w ++ type0_bytes h [])
unfolding serializer_chunk_message_header write_u32_le
serializer_header_type0 h w small =
    rw (no_stream_id h w)
      (ground (arith, append_assoc w (type1_bytes h []) (le32 h.message_stream_id [])))

pub serializer_header_type2 :
    (delta : ℕ) (w : List ℕ)
    → delta < 0xffffff
    → serializer_chunk_delta_time w delta ≡ ok (w ++ be24 delta [])
unfolding serializer_chunk_delta_time write_u24_be
serializer_header_type2 delta w small = ground arith

-- A 24 bit number from its three bytes.
be24-eq : (v : ℕ) → IsU24 v → byte_at 16 v * 65536 + byte_at 8 v * 256 + byte_at 0 v ≡ v
be24-eq v h = omega arith

read_be24 :
    (v : ℕ) (s : List ℕ) (r : Reader) → IsU24 v → read_uint24_be (be24 v s ∷ r) ≡ ok (v, s ∷ r)
read_be24 v s r h = read_uint24_be-whole _ _ _ s r ∙ ap (λ (n : ℕ). ok (n, s ∷ r)) (be24-eq v h)

no_ext :
    (h : ChunkMessageHeader) (r : Reader)
    → h.timestamp < 0xffffff
    → with_ext_timestamp h r ≡ ok (h, r)
unfolding with_ext_timestamp
no_ext h r small = ground arith

-- The header that the reader of each type returns.
abbrev pub received_type1 : ChunkMessageHeader → ChunkMessageHeader
received_type1 h = record {
  timestamp = h.time_delta;
  message_length = h.message_length;
  message_type_id = h.message_type_id;
  timestamp_exted = false;
  time_delta = 0;
  message_stream_id = 0;
}

abbrev pub received_type0 : ChunkMessageHeader → ChunkMessageHeader
received_type0 h = record (received_type1 h) { message_stream_id = h.message_stream_id }

pub header_type0-Reads :
    (h : ChunkMessageHeader) (rest : List ℕ) (r : Reader)
    → h.time_delta < 0xffffff
    → IsU24 h.message_length
    → IsU32 h.message_stream_id
    → bytes r ≡ type0_bytes h rest
    → Reads (λ r'. read_chunk_message_header r' 0) r (received_type0 h) rest
unfolding read_chunk_message_header read_chunk_message_header_type0
header_type0-Reads h rest r small length stream e =
    let (r1, p, q) = read_full-prefix (type0_bytes h []) rest r e in
    (
      r1,
      rw
          (
            p,
            read_be24 h.time_delta _ [] (omega arith),
            read_be24 h.message_length _ [] length,
            read_uint8-whole,
            read_uint32_le-whole h.message_stream_id stream,
          )
          (no_ext (received_type0 h) r1 small),
      q,
    )

pub header_type1-Reads :
    (h : ChunkMessageHeader) (rest : List ℕ) (r : Reader)
    → h.time_delta < 0xffffff
    → IsU24 h.message_length
    → bytes r ≡ type1_bytes h rest
    → Reads (λ r'. read_chunk_message_header r' 1) r (received_type1 h) rest
unfolding read_chunk_message_header read_chunk_message_header_type1
header_type1-Reads h rest r small length e =
    let (r1, p, q) = read_full-prefix (type1_bytes h []) rest r e in
    (
      r1,
      rw
          (
            p,
            read_be24 h.time_delta _ [] (omega arith),
            read_be24 h.message_length _ [] length,
            read_uint8-whole,
          )
          (no_ext (received_type1 h) r1 small),
      q,
    )

-- The type 2 header is read by one `Read`, so its bytes have to lie in one segment.
pub header_type2-whole :
    (delta : ℕ) (s : List ℕ) (r : Reader)
    → delta < 0xffffff
    → read_chunk_message_header (be24 delta s ∷ r) 2
      ≡ ok (record zero_header { timestamp = delta }, s ∷ r)
unfolding read_chunk_message_header read_chunk_message_header_type2
header_type2-whole delta s r small = rw (read_be24 delta s r (omega arith)) (no_ext _ _ small)

pub header_type2-First :
    (delta : ℕ) (rest : List ℕ) (r : Reader)
    → delta < 0xffffff
    → bytes r ≡ be24 delta rest
    → 3 ≤ first_length r
    → Reads
        (λ (r' : Reader). read_chunk_message_header r' 2)
        r
        (record zero_header { timestamp = delta })
        rest
unfolding first_length
header_type2-First delta rest [] small e n = absurd (omega arith)
header_type2-First delta rest ([] ∷ r) small e n = absurd (omega arith)
header_type2-First delta rest ((a ∷ []) ∷ r) small e n = absurd (omega arith)
header_type2-First delta rest ((a ∷ b ∷ []) ∷ r) small e n = absurd (omega arith)
header_type2-First delta rest ((a ∷ b ∷ c ∷ s) ∷ r) small e n =
    let same : (a ∷ b ∷ c ∷ s) ≡ be24 delta s = cc in
    let back : s ++ bytes r ≡ rest = cc in
    (s ∷ r, rw same (header_type2-whole delta s r small), back)

-- For a header whose timestamp and delta need no extension, `serializerChunkMessageHeader` and
-- `serializerChunkMessageHeaderType1` write `type0_bytes` and `type1_bytes`, and from a stream
-- that begins with these bytes, in every segmentation, the reader of the type returns the
-- header's length, type and (type 0) stream, but the header's delta as the timestamp: the
-- timestamp itself is not written.
pub header_round_trip :
    (h : ChunkMessageHeader) (rest : List ℕ) (r0 r1 : Reader)
    → h.timestamp ≤ 0xffffff
    → h.time_delta < 0xffffff
    → IsU24 h.message_length
    → IsU32 h.message_stream_id
    → bytes r0 ≡ type0_bytes h rest
    → bytes r1 ≡ type1_bytes h rest
    → (serializer_chunk_message_header h [] ≡ ok (type0_bytes h []))
      × (serializer_chunk_message_header_type1 h [] ≡ ok (type1_bytes h []))
      × Reads (λ r'. read_chunk_message_header r' 0) r0 (received_type0 h) rest
      × Reads (λ r'. read_chunk_message_header r' 1) r1 (received_type1 h) rest
header_round_trip h rest r0 r1 small delta length stream e0 e1 = (
  serializer_header_type0 h [] small,
  serializer_header_type1 h [] small,
  header_type0-Reads h rest r0 delta length stream e0,
  header_type1-Reads h rest r1 delta length e1,
)
