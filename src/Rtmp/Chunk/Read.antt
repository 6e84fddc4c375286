-- ===== src/Rtmp/Chunk/Read.antt =====
-- protocol/rtmp/chunk.go: the readers of chunk headers and chunk data.
use golive.Common.{ℕ, ◌+◌, ◌/◌, ◌^◌, true, false, List, [], ◌∷◌, bit_and, ◌==◌, ltb, if◌then◌else◌}
use golive.Common.Go.{Result, ok, err, unknown_format, ◌>>=◌}
use golive.Common.Go.Reader.{Reader, read_full}
use golive.ByteIo.Stream.{
  read_uint8, read_uint16_be, read_uint24_be, read_uint32_be, read_uint32_le,
}
use golive.Rtmp.Chunk.{ChunkBasicHeader, ChunkMessageHeader, zero_header}

-- What follows the first byte `h` of the header: the stream id in one byte, in two, or in `h` itself.
unfoldable pub chunk_stream_id_after : ℕ → ℕ → Reader → Result (ChunkBasicHeader × Reader)
chunk_stream_id_after h csid r =
    let in_one = do
      (c, r1) ← read_uint8 r
      ok (record { format = h / 2 ^ 6; chunk_stream_id = c + 64 }, r1)
    in let in_two = do
      (c, r1) ← read_uint16_be r
      ok (record { format = h / 2 ^ 6; chunk_stream_id = c + 64 }, r1)
      in if csid == 0
        then in_one
        else if csid == 1
        then in_two
        else ok (record { format = h / 2 ^ 6; chunk_stream_id = csid }, r)

unfoldable pub get_chunk_basic_header : Reader → Result (ChunkBasicHeader × Reader)
unfolding chunk_stream_id_after
get_chunk_basic_header r = do (h, r1) ← read_uint8 r; chunk_stream_id_after h (bit_and h 0x3f) r1

unfoldable pub read_chunk_ext_timestamp : Reader → Result (ℕ × Reader)
read_chunk_ext_timestamp r = read_uint32_be r

-- `if chunk.timestamp == 0xffffff { … }`, the end of each of the three header readers
unfoldable pub with_ext_timestamp :
    ChunkMessageHeader → Reader → Result (ChunkMessageHeader × Reader)
unfolding read_chunk_ext_timestamp
with_ext_timestamp chunk r =
    let extended = do
      (t, r1) ← read_chunk_ext_timestamp r
      ok (record chunk { timestamp = t; timestamp_exted = true }, r1)
    in if chunk.timestamp == 0xffffff then extended else ok (chunk, r)

-- The inner reader is over the eleven bytes of `buf`, so its errors, which the code drops, are not
-- met.
unfoldable pub read_chunk_message_header_type0 : Reader → Result (ChunkMessageHeader × Reader)
read_chunk_message_header_type0 r = do
  (buf, r1) ← read_full 11 r
  (timestamp, bio) ← read_uint24_be (buf ∷ [])
  (message_length, bio1) ← read_uint24_be bio
  (message_type_id, bio2) ← read_uint8 bio1
  (message_stream_id, _) ← read_uint32_le bio2
  let chunk : ChunkMessageHeader = record {
    timestamp = timestamp;
    message_length = message_length;
    message_type_id = message_type_id;
    timestamp_exted = false;
    time_delta = 0;
    message_stream_id = message_stream_id;
  }
  with_ext_timestamp chunk r1

unfoldable pub read_chunk_message_header_type1 : Reader → Result (ChunkMessageHeader × Reader)
read_chunk_message_header_type1 r = do
  (buf, r1) ← read_full 7 r
  (timestamp, bio) ← read_uint24_be (buf ∷ [])
  (message_length, bio1) ← read_uint24_be bio
  (message_type_id, _) ← read_uint8 bio1
  let chunk : ChunkMessageHeader = record {
    timestamp = timestamp;
    message_length = message_length;
    message_type_id = message_type_id;
    timestamp_exted = false;
    time_delta = 0;
    message_stream_id = 0;
  }
  with_ext_timestamp chunk r1

unfoldable pub read_chunk_message_header_type2 : Reader → Result (ChunkMessageHeader × Reader)
read_chunk_message_header_type2 r = do
  (timestamp, r1) ← read_uint24_be r
  with_ext_timestamp (record zero_header { timestamp = timestamp }) r1

unfoldable pub read_chunk_message_header : Reader → ℕ → Result (ChunkMessageHeader × Reader)
read_chunk_message_header r chunk_fmt =
    if chunk_fmt == 0
    then read_chunk_message_header_type0 r
    else if chunk_fmt == 1
    then read_chunk_message_header_type1 r
    else if chunk_fmt == 2
    then read_chunk_message_header_type2 r
    else if chunk_fmt == 3
    then ok (zero_header, r)
    else err (unknown_format chunk_fmt)

unfoldable pub read_chunk_data : Reader → ℕ → ℕ → Result (List ℕ × Reader)
read_chunk_data r remain chunk_size =
    read_full (if ltb chunk_size remain then chunk_size else remain) r
