-- ===== src/Rtmp/Packer.antt =====
-- protocol/rtmp/pack.go: the sending side, from messages to the bytes of a connection.
use golive.Common.{ℕ, ◌+◌, ◌-◌, ◌%◌, ◌^◌, Bool, not, ◌&&◌, ◌||◌}
use golive.Common.{Option, none, List, [], ◌∷◌, ◌==◌, ltb, if◌then◌else◌}
use golive.Common.Go.{Result, ok, err, ◌>>=◌, send_msg_streamid}
use golive.Rtmp.Chunk.{ChunkBasicHeader, ChunkMessageHeader, Chunk, ChunkStream}
use golive.Rtmp.Chunk.{is_known, stream_or_new}
use golive.Rtmp.Chunk.Write.{serializer_type0, serializer_type1, serializer_type2, serializer_type3}
use golive.Common.Go.Map.{update}
use golive.Rtmp.Message.{Message, ChunkArray, to_type0_chunk}

pub record ChunkPacker : Type 0 where
  pub send_chunk_size : ℕ
  pub send_streams : ℕ → Option ChunkStream

unfoldable pub new_chunk_packer : ChunkPacker
new_chunk_packer = record { send_chunk_size = 128; send_streams = λ _. none }

unfoldable pub set_chunk_size : ChunkPacker → ℕ → ChunkPacker
set_chunk_size s chunk_size = record s { send_chunk_size = chunk_size }

unfoldable pub get_chunk_size : ChunkPacker → ℕ
get_chunk_size s = s.send_chunk_size

-- `isProtoCtrlMsg`
unfoldable pub is_proto_ctrl_msg : ChunkBasicHeader → ChunkMessageHeader → Bool
is_proto_ctrl_msg basic hdr =
    basic.chunk_stream_id == 2
    && hdr.message_stream_id == 0
    && not (hdr.message_type_id == 4)
    && ltb hdr.message_type_id 7

-- How a chunk is sent: the format, what the chunk stream remembers afterwards, and the header that
-- the chunks share, with the delta written to it.
unfoldable pub choose_format :
    Bool
    → ChunkStream
    → ChunkBasicHeader
    → ChunkMessageHeader
    → ℕ × ChunkStream × ChunkMessageHeader
choose_format known cs basic hdr =
    let old = cs.header in
    let time_delta = (hdr.timestamp + 2 ^ 32 - old.timestamp) % 2 ^ 32 in
    let with_format = λ (f : ℕ). record cs.basic { format = f } in
    let hdr' = record hdr { time_delta = time_delta } in
    let type0 = record cs { basic = record basic { format = 0 }; header = hdr } in
    let type1 = record cs {
      basic = with_format 1;
      header = record old {
        time_delta = time_delta;
        timestamp = hdr.timestamp;
        message_length = hdr.message_length;
        message_type_id = hdr.message_type_id;
      };
    } in
    let type2 = record cs {
      basic = with_format 2;
      header = record old { time_delta = time_delta; timestamp = hdr.timestamp };
    } in
    let type3 = record cs { basic = with_format 3 } in
    if is_proto_ctrl_msg basic hdr
      || not (old.message_stream_id == hdr.message_stream_id)
      || not known
    then (0, type0, hdr)
    else if old.message_length == hdr.message_length && old.message_type_id == hdr.message_type_id
    then (if old.timestamp == hdr.timestamp || old.time_delta == time_delta
        then (3, type3, hdr)
        else (2, type2, hdr'))
    else (1, type1, hdr')

unfoldable pub serialize_as : ℕ → Chunk → List ℕ → Result (List ℕ)
serialize_as format chunk w =
    if format == 0
    then serializer_type0 chunk w
    else if format == 1
    then serializer_type1 chunk w
    else if format == 2
    then serializer_type2 chunk w chunk.header.time_delta
    else serializer_type3 chunk w

-- One round of `SerializerChunk`. The two panics of the code are not met: the format of a fresh
-- stream is 0, and the `else` branch has the same message stream ids.
unfoldable pub serialize_one :
    ChunkPacker
    → ChunkBasicHeader
    → ChunkMessageHeader
    → List ℕ
    → List ℕ
    → Result (ChunkPacker × ChunkMessageHeader × List ℕ)
serialize_one s basic hdr payload w =
    let csid = basic.chunk_stream_id in
    let found = s.send_streams csid in
    let cs = stream_or_new csid found in
    let (format, cs', hdr') = choose_format (is_known found) cs basic hdr in
    let chunk : Chunk = record { basic = basic; header = hdr'; payload = payload } in
    serialize_as format chunk w >>= λ w'.
    ok (record s { send_streams = update s.send_streams csid cs' }, hdr', w')

unfoldable pub serialize_loop :
    ChunkPacker
    → ChunkBasicHeader
    → ChunkMessageHeader
    → List (List ℕ)
    → List ℕ
    → Result (ChunkPacker × List ℕ)
serialize_loop s basic hdr [] w = ok (s, w)
serialize_loop s basic hdr (payload ∷ rest) w =
    serialize_one s basic hdr payload w >>= λ (s', hdr', w'). serialize_loop s' basic hdr' rest w'

unfoldable pub serializer_chunk : ChunkPacker → ChunkArray → List ℕ → Result (ChunkPacker × List ℕ)
serializer_chunk s chunks w = serialize_loop s chunks.basic chunks.header chunks.payloads w

-- The switch of `MessageToChunk`: the chunk stream that a message type travels on.
unfoldable pub csid_of : ℕ → ℕ
csid_of t =
    if t == 0x14 || t == 0x11
    then 3
    else if t == 0x12 || t == 0xf
    then 4
    else if t == 9
    then 6
    else if t == 8
    then 4
    else 2

unfoldable pub message_to_chunk : ChunkPacker → Message → Result ChunkArray
message_to_chunk p m =
    let control = ltb 0 m.message_type && ltb m.message_type 7 in
    if control && not (m.stream_id == 0)
    then err (send_msg_streamid m.stream_id)
    else to_type0_chunk m (csid_of m.message_type) p.send_chunk_size

-- `WriteMessage` hands all the bytes to one `Write` of the connection: they are the result.
unfoldable pub write_message : ChunkPacker → Message → Result (ChunkPacker × List ℕ)
write_message p m = message_to_chunk p m >>= λ chunks. serializer_chunk p chunks []
