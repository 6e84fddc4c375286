-- ===== src/Rtmp/Chunk/Write.antt =====
-- protocol/rtmp/chunk.go: the writers of chunk headers and chunks. Each appends to a `bytes.Buffer`,
-- the list of the bytes written so far.
use golive.Common.{ℕ, ◌+◌, ◌-◌, ◌*◌, ◌/◌, ◌%◌, ◌^◌, List, [], ◌∷◌, ◌++◌}
use golive.Common.{bit_or, ltb, if◌then◌else◌}
use golive.Common.Go.{Result, ok, ◌>>=◌}
use golive.ByteIo.Put.{write_u24_be, write_u32_be, write_u32_le}
use golive.Rtmp.Chunk.{ChunkMessageHeader, Chunk}

-- `fmt << 6` and `h + 1` are of type `uint8`.
unfoldable pub serializer_chunk_basic_header : ℕ → ℕ → List ℕ → List ℕ
serializer_chunk_basic_header fmt csid w =
    let h = fmt * 2 ^ 6 % 256 in
    if ltb csid 64
    then w ++ (bit_or h (csid % 256) ∷ [])
    else if ltb csid (256 + 64)
    then w ++ (h ∷ ((csid - 63) % 256) ∷ [])
    else (let c = csid - 63 in
        w ++ (((h + 1) % 256) ∷ ((c - 63) % 256) ∷ (c % 256) ∷ (c / 256 % 256) ∷ []))

unfoldable pub serializer_chunk_delta_time : List ℕ → ℕ → Result (List ℕ)
serializer_chunk_delta_time w delta_time =
    if ltb delta_time 0xffffff
    then write_u24_be w delta_time
    else write_u32_be (w ++ (0xff ∷ 0xff ∷ 0xff ∷ [])) delta_time

unfoldable pub serializer_chunk_message_header_no_stream_id :
    ChunkMessageHeader → List ℕ → Result (List ℕ)
serializer_chunk_message_header_no_stream_id msg_hdr w = do
  w1 ← write_u24_be w msg_hdr.time_delta
  w2 ← write_u24_be w1 msg_hdr.message_length
  ok (w2 ++ (msg_hdr.message_type_id ∷ []))

unfoldable pub serializer_chunk_message_header_type1 : ChunkMessageHeader → List ℕ → Result (List ℕ)
serializer_chunk_message_header_type1 msg_hdr w = do
  w1 ← serializer_chunk_message_header_no_stream_id msg_hdr w
  if ltb 0xffffff msg_hdr.timestamp then write_u32_be w1 msg_hdr.time_delta else ok w1

unfoldable pub serializer_chunk_message_header : ChunkMessageHeader → List ℕ → Result (List ℕ)
serializer_chunk_message_header msg_hdr w = do
  w1 ← serializer_chunk_message_header_no_stream_id msg_hdr w
  w2 ← write_u32_le w1 msg_hdr.message_stream_id
  if ltb 0xffffff msg_hdr.timestamp then write_u32_be w2 msg_hdr.timestamp else ok w2

unfoldable pub serializer_type0 : Chunk → List ℕ → Result (List ℕ)
serializer_type0 c w = do
  w1 ←
      serializer_chunk_message_header c.header
        (serializer_chunk_basic_header 0 c.basic.chunk_stream_id w)
  ok (w1 ++ c.payload)

unfoldable pub serializer_type1 : Chunk → List ℕ → Result (List ℕ)
serializer_type1 c w = do
  w1 ←
      serializer_chunk_message_header_type1 c.header
        (serializer_chunk_basic_header 1 c.basic.chunk_stream_id w)
  ok (w1 ++ c.payload)

unfoldable pub serializer_type2 : Chunk → List ℕ → ℕ → Result (List ℕ)
serializer_type2 c w delta_time = do
  w1 ←
      serializer_chunk_delta_time (serializer_chunk_basic_header 2 c.basic.chunk_stream_id w)
        delta_time
  ok (w1 ++ c.payload)

unfoldable pub serializer_type3 : Chunk → List ℕ → Result (List ℕ)
serializer_type3 c w = ok (serializer_chunk_basic_header 3 c.basic.chunk_stream_id w ++ c.payload)
