-- ===== src/Rtmp/Transfer/Wire.antt =====
-- The bytes of one chunk in each of the four formats.
use golive.Common.{ℕ, ◌+◌, ◌*◌, ◌<◌, ◌≤◌, ◌≡◌, arith}
use golive.Common.{List, ◌∷◌, ◌++◌, append_assoc}
use golive.Common.Go.{ok}
use golive.Rtmp.Chunk.{Chunk}
use golive.Rtmp.Chunk.Write.{serializer_type0, serializer_type1, serializer_type2, serializer_type3}
use golive.Rtmp.Chunk.BasicHeader.{serializer_small}
use golive.Rtmp.Chunk.MessageHeader.{be24, type0_bytes, type1_bytes}
use golive.Rtmp.Chunk.MessageHeader.{serializer_header_type0, serializer_header_type1}
use golive.Rtmp.Chunk.MessageHeader.{serializer_header_type2}
use golive.Rtmp.Packer.{serialize_as}

module _ (c : Chunk) (w : List ℕ) (small_id : c.basic.chunk_stream_id < 64) where
  pub wire_type3 : serialize_as 3 c w ≡ ok (w ++ ((3 * 64 + c.basic.chunk_stream_id) ∷ c.payload))
  unfolding serialize_as serializer_type3
  wire_type3 = rw (serializer_small 3 _ w (omega arith) small_id) (simp append_assoc)

  pub wire_type2 :
      c.header.time_delta < 0xffffff
      → serialize_as 2 c w
        ≡ ok (w ++ ((2 * 64 + c.basic.chunk_stream_id) ∷ be24 c.header.time_delta c.payload))
  unfolding serialize_as serializer_type2
  wire_type2 small =
      rw (serializer_small 2 _ w (omega arith) small_id, serializer_header_type2 _ _ small)
        (simp append_assoc)

  pub wire_type1 :
      c.header.timestamp ≤ 0xffffff
      → serialize_as 1 c w
        ≡ ok (w ++ ((1 * 64 + c.basic.chunk_stream_id) ∷ type1_bytes c.header c.payload))
  unfolding serialize_as serializer_type1
  wire_type1 small =
      rw (serializer_small 1 _ w (omega arith) small_id, serializer_header_type1 c.header _ small)
        (simp append_assoc)

  pub wire_type0 :
      c.header.timestamp ≤ 0xffffff
      → serialize_as 0 c w
        ≡ ok (w ++ ((0 * 64 + c.basic.chunk_stream_id) ∷ type0_bytes c.header c.payload))
  unfolding serialize_as serializer_type0
  wire_type0 small =
      rw (serializer_small 0 _ w (omega arith) small_id, serializer_header_type0 c.header _ small)
        (simp append_assoc)
