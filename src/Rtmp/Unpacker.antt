-- ===== src/Rtmp/Unpacker.antt =====
-- protocol/rtmp/pack.go: the receiving side, from the bytes of a connection to messages.
use golive.Common.{ℕ, zero, suc, ◌+◌, ◌-◌, ◌%◌, ◌^◌, not, ◌&&◌, Option, none, some}
use golive.Common.{List, length, ◌==◌, ltb, if◌then◌else◌}
use golive.Common.Go.{Result, ok, err, panic, stuck, ◌>>=◌}
use golive.Common.Go.{wrong_csid, csid_for_msgtype, msid_for_msgtype}
use golive.Common.Go.Reader.{Reader, bytes}
use golive.Rtmp.Chunk.{ChunkBasicHeader, ChunkMessageHeader, Chunk, ChunkStream, stream_or_new}
use golive.Rtmp.Chunk.Read.{get_chunk_basic_header, read_chunk_message_header, read_chunk_data}
use golive.Common.Go.Map.{update}
use golive.Rtmp.Message.{Message, MessageCollector, new_message_collector}
use golive.Rtmp.Message.{handle_receive_chunk}

pub record ChunkUnpacker : Type 0 where
  pub streams : ℕ → Option ChunkStream
  pub chunk_size : ℕ
  pub message_collector : MessageCollector

unfoldable pub new_chunk_unpacker : ChunkUnpacker
unfolding new_message_collector
new_chunk_unpacker = record {
  streams = λ _. none;
  chunk_size = 128;
  message_collector = new_message_collector;
}

unfoldable pub set_chunk_size : ChunkUnpacker → ℕ → ChunkUnpacker
set_chunk_size s size = record s { chunk_size = size }

-- The switch on the format in `ReadChunk`, at the start of a message: what the chunk stream
-- remembers is updated from the header, and the header completed from what it remembers. The
-- timestamps are added as `uint32`.
unfoldable pub start_message :
    ChunkStream → ChunkBasicHeader → ChunkMessageHeader → ChunkStream × ChunkMessageHeader
start_message cs basic hdr =
    let old = cs.header in
    let sum = (hdr.timestamp + old.timestamp) % 2 ^ 32 in
    let type0 = record cs { remain = hdr.message_length; basic = basic; header = hdr } in
    let type1 = record cs {
      remain = hdr.message_length;
      header = record old {
        message_length = hdr.message_length;
        message_type_id = hdr.message_type_id;
        timestamp = sum;
      };
    } in
    let hdr1 = record hdr { timestamp = sum; message_stream_id = old.message_stream_id } in
    let type2 = record cs {
      remain = old.message_length;
      header = record old { timestamp = sum };
    } in
    let hdr2 = record hdr {
      timestamp = sum;
      message_length = old.message_length;
      message_type_id = old.message_type_id;
      message_stream_id = old.message_stream_id;
    } in
    let type3 = record cs { remain = old.message_length } in
    let hdr3 = record hdr {
      timestamp = old.timestamp;
      message_length = old.message_length;
      message_type_id = old.message_type_id;
      message_stream_id = old.message_stream_id;
    } in
    if basic.format == 0
    then (type0, hdr)
    else if basic.format == 1
    then (type1, hdr1)
    else if basic.format == 2
    then (type2, hdr2)
    else if basic.format == 3
    then (type3, hdr3)
    else (cs, hdr)

-- The chunk stream and the header before the data is read.
unfoldable pub apply_header :
    ChunkStream → ChunkBasicHeader → ChunkMessageHeader → ChunkStream × ChunkMessageHeader
apply_header cs basic hdr =
    let (cs', hdr') = if cs.remain == 0 then start_message cs basic hdr else (cs, hdr) in
    (
      cs',
      if basic.format == 0
          then hdr'
          else record hdr' { message_stream_id = cs'.header.message_stream_id },
    )

-- `ReadChunk` writes to the unpacker through pointers, also on the way to an error: the unpacker
-- comes back beside the result.
module _ (s : ChunkUnpacker) (basic : ChunkBasicHeader) (cs : ChunkStream) where
  -- `s.streams[id] = cs`, or a write through the pointer that is there
  abbrev pub store : ChunkStream → ChunkUnpacker
  store cs' = record s { streams = update s.streams basic.chunk_stream_id cs' }

  unfoldable pub finish_chunk :
      ChunkStream
      → ChunkMessageHeader
      → Result (List ℕ × Reader)
      → Result (Chunk × Reader) × ChunkUnpacker
  finish_chunk cs' hdr (ok (payload, r)) = (
    ok (record { basic = basic; header = hdr; payload = payload }, r),
    store (record cs' { remain = (cs'.remain + 2 ^ 32 - length payload) % 2 ^ 32 }),
  )
  finish_chunk cs' hdr (err e) = (err e, store cs')
  finish_chunk cs' hdr panic = (panic, store cs')
  finish_chunk cs' hdr stuck = (stuck, store cs')

  unfoldable pub read_body :
      Result (ChunkMessageHeader × Reader) → Result (Chunk × Reader) × ChunkUnpacker
  read_body (ok (hdr, r)) =
      let (cs', hdr') = apply_header cs basic hdr in
      finish_chunk cs' hdr' (read_chunk_data r cs'.remain s.chunk_size)
  read_body (err e) = (err e, store cs)
  read_body panic = (panic, store cs)
  read_body stuck = (stuck, store cs)

unfoldable pub read_chunk_after :
    ChunkUnpacker → Result (ChunkBasicHeader × Reader) → Result (Chunk × Reader) × ChunkUnpacker
read_chunk_after s (ok (basic, r)) =
    let id = basic.chunk_stream_id in
    read_body s basic (stream_or_new id (s.streams id)) (read_chunk_message_header r basic.format)
read_chunk_after s (err e) = (err e, s)
read_chunk_after s panic = (panic, s)
read_chunk_after s stuck = (stuck, s)

unfoldable pub read_chunk : ChunkUnpacker → Reader → Result (Chunk × Reader) × ChunkUnpacker
read_chunk s r = read_chunk_after s (get_chunk_basic_header r)

-- The tests on a complete message in `getRtmpMessage`: protocol control messages travel on chunk
-- stream 2 and message stream 0.
unfoldable pub check_message : ℕ → Message → Result Message
check_message csid msg =
    let control = ltb 0 msg.message_type && ltb msg.message_type 7 in
    if control && not (csid == 2)
    then err (csid_for_msgtype csid msg.message_type)
    else if control && not (msg.stream_id == 0)
    then err (msid_for_msgtype csid msg.message_type)
    else ok msg

-- One round of the loop of `getRtmpMessage`; `next` is the loop from its head, for `continue`.
module _ (next : ChunkUnpacker → Reader → Result (Message × Reader) × ChunkUnpacker) where
  unfoldable pub deliver :
      ℕ → Reader → ChunkUnpacker → Option Message → Result (Message × Reader) × ChunkUnpacker
  deliver csid r h none = next h r
  deliver csid r h (some msg) = (check_message csid msg >>= λ m. ok (m, r), h)

  unfoldable pub after_collect :
      ℕ
      → Reader
      → ChunkUnpacker
      → Result (Option Message × MessageCollector)
      → Result (Message × Reader) × ChunkUnpacker
  after_collect csid r h (ok (msg, c)) =
      let h' = record h { message_collector = c } in
      if ltb csid 2 then (err (wrong_csid csid), h') else deliver csid r h' msg
  after_collect csid r h (err e) = (err e, h)
  after_collect csid r h panic = (panic, h)
  after_collect csid r h stuck = (stuck, h)

  unfoldable pub after_chunk :
      Result (Chunk × Reader) × ChunkUnpacker → Result (Message × Reader) × ChunkUnpacker
  after_chunk (ok (chunk, r), h) =
      after_collect chunk.basic.chunk_stream_id r h (handle_receive_chunk h.message_collector chunk)
  after_chunk (err e, h) = (err e, h)
  after_chunk (panic, h) = (panic, h)
  after_chunk (stuck, h) = (stuck, h)

unfoldable pub message_loop : ℕ → ChunkUnpacker → Reader → Result (Message × Reader) × ChunkUnpacker
message_loop zero h r = (stuck, h)
message_loop (suc fuel) h r = after_chunk (message_loop fuel) (read_chunk h r)

-- Each round takes a byte at least, so one round more than there are bytes is enough.
unfoldable pub get_rtmp_message : ChunkUnpacker → Reader → Result (Message × Reader) × ChunkUnpacker
get_rtmp_message h r = message_loop (length (bytes r) + 1) h r
