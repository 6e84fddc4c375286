-- ===== src/Rtmp/Transfer/Chunks.antt =====
-- Receiving one chunk whose headers are known to parse.
use golive.Common.{ℕ, ◌+◌, ◌-◌, ◌%◌, ◌^◌, ◌<◌, ◌≡◌, refl, arith}
use golive.Common.{
  true, false, some, none, Option, List, [], ◌++◌, length, ltb, if◌then◌else◌, ◌==◌,
}
use golive.Common.Go.{ok}
use golive.Common.Go.Reader.{Reader, bytes, Reads, read_full-prefix}
use golive.Rtmp.Chunk.{ChunkBasicHeader, ChunkMessageHeader, Chunk, ChunkStream, stream_or_new}
use golive.Rtmp.Chunk.Read.{get_chunk_basic_header, read_chunk_message_header, read_chunk_data}
use golive.Common.Go.Map.{update}
use golive.Rtmp.Message.{Message, MessageStream, MessageCollector, handle_receive_chunk}
use golive.Rtmp.Message.{new_message_stream, collect, get_message}
use golive.Rtmp.Unpacker.{ChunkUnpacker, read_chunk, apply_header, store}
use golive.Rtmp.Unpacker.{read_chunk_after, read_body, finish_chunk}

-- How many bytes `readChunkData` takes.
abbrev pub piece_size : ℕ → ℕ → ℕ
piece_size remain chunk_size = if ltb chunk_size remain then chunk_size else remain

data_Reads :
    (piece rest : List ℕ) (remain chunk_size : ℕ) (r : Reader)
    → length piece ≡ piece_size remain chunk_size
    → bytes r ≡ piece ++ rest
    → Reads (λ r'. read_chunk_data r' remain chunk_size) r piece rest
unfolding read_chunk_data
data_Reads piece rest remain chunk_size r len e = rw (← len) (read_full-prefix piece rest r e)

left_over :
    (remain chunk_size k : ℕ)
    → k ≡ piece_size remain chunk_size
    → remain < 2 ^ 32
    → (remain + 2 ^ 32 - k) % 2 ^ 32 ≡ remain - k
left_over remain chunk_size k e h = ground arith

-- `ReadChunk` where the headers parse to `basic` and `hdr` and complete to `hdr'` and the stream
-- `cs'`: it takes the next piece, and the stream has so much less to come.
pub read_chunk_step :
    (u : ChunkUnpacker) (basic : ChunkBasicHeader) (hdr hdr' : ChunkMessageHeader)
    (cs' : ChunkStream) (piece rest : List ℕ) (r r1 r2 : Reader)
    → get_chunk_basic_header r ≡ ok (basic, r1)
    → read_chunk_message_header r1 basic.format ≡ ok (hdr, r2)
    → apply_header (stream_or_new basic.chunk_stream_id (u.streams basic.chunk_stream_id)) basic hdr
      ≡ (cs', hdr')
    → length piece ≡ piece_size cs'.remain u.chunk_size
    → cs'.remain < 2 ^ 32
    → bytes r2 ≡ piece ++ rest
    → (r' : Reader) × (read_chunk u r ≡ (
      ok (record { basic = basic; header = hdr'; payload = piece }, r'),
      store u basic cs' (record cs' { remain = cs'.remain - length piece }),
    ))
      × (bytes r' ≡ rest)
unfolding read_chunk read_chunk_after read_body finish_chunk
read_chunk_step u basic hdr hdr' cs' piece rest r r1 r2 p1 p2 p3 len small e =
    let (r', p, q) = data_Reads piece rest cs'.remain u.chunk_size r2 len e in
    (r', rw (p1, p2, p3, p) (rw (left_over cs'.remain u.chunk_size (length piece) len small)), q)

-- A chunk in the middle of a message, and its last chunk.
module _ (c : MessageCollector) (chunk : Chunk) (ms : MessageStream)
    (known : c.streams chunk.header.message_stream_id ≡ some ms)
    (collecting : ms.is_collecting ≡ true) (small : ms.remain < 2 ^ 32) where
  abbrev k : ℕ
  k = length chunk.payload

  abbrev seen : MessageStream
  seen = record ms { format = chunk.basic.format; chunk_stream_id = chunk.basic.chunk_stream_id }

  middle :
      k < ms.remain
      → collect seen chunk
        ≡ (none, record seen { collected = ms.collected ++ chunk.payload; remain = ms.remain - k })
  unfolding collect
  middle h = ground arith

  at_end :
      k ≡ ms.remain
      → collect seen chunk ≡ (
        some (record {
          message_type = ms.message_type_id;
          timestamp = ms.timestamp;
          stream_id = ms.message_stream_id;
          payload = ms.collected ++ chunk.payload;
        }),
        record seen { collected = []; is_collecting = false; remain = 0 },
      )
  unfolding collect get_message
  at_end h = ground arith

  pub collect_middle :
      k < ms.remain
      → handle_receive_chunk c chunk
        ≡ ok (
          none,
          record c {
            streams = update c.streams chunk.header.message_stream_id (record ms {
              format = chunk.basic.format;
              chunk_stream_id = chunk.basic.chunk_stream_id;
              collected = ms.collected ++ chunk.payload;
              remain = ms.remain - k;
            });
          },
        )
  unfolding handle_receive_chunk
  collect_middle h = rw (known, handle_receive_chunk) (rw (middle h))

  pub collect_last :
      k ≡ ms.remain
      → handle_receive_chunk c chunk
        ≡ ok (
          some (record {
            message_type = ms.message_type_id;
            timestamp = ms.timestamp;
            stream_id = ms.message_stream_id;
            payload = ms.collected ++ chunk.payload;
          }),
          record c {
            streams = update c.streams chunk.header.message_stream_id (record ms {
              format = chunk.basic.format;
              chunk_stream_id = chunk.basic.chunk_stream_id;
              collected = [];
              is_collecting = false;
              remain = 0;
            });
          },
        )
  unfolding handle_receive_chunk
  collect_last h = rw (known, handle_receive_chunk) (rw (at_end h))

-- A message stream that is ready for the first chunk of a message, which has format `fmt`.
abbrev pub Ready : ℕ → Option MessageStream → Type 0
Ready fmt none = fmt ≡ 0
Ready fmt (some ms) = (ms.is_collecting ≡ false) × (ms.collected ≡ [])

abbrev pub message_stream_or_new : Option MessageStream → MessageStream
message_stream_or_new none = new_message_stream
message_stream_or_new (some ms) = ms

-- What the first chunk of a message writes to its message stream, but for the data.
abbrev pub started : MessageStream → Chunk → MessageStream
started ms chunk = record ms {
  format = chunk.basic.format;
  chunk_stream_id = chunk.basic.chunk_stream_id;
  timestamp = chunk.header.timestamp;
  message_length = chunk.header.message_length;
  message_type_id = chunk.header.message_type_id;
  message_stream_id = chunk.header.message_stream_id;
}

abbrev pub message_of : Chunk → List ℕ → Message
message_of chunk payload = record {
  message_type = chunk.header.message_type_id;
  timestamp = chunk.header.timestamp;
  stream_id = chunk.header.message_stream_id;
  payload = payload;
}

module _ (chunk : Chunk) where
  whole_in_one :
      (ms : MessageStream)
      → ms.is_collecting ≡ false
      → chunk.header.message_length ≡ length chunk.payload
      → collect
          (record ms { format = chunk.basic.format; chunk_stream_id = chunk.basic.chunk_stream_id })
          chunk
        ≡ (
          some (message_of chunk chunk.payload),
          record (started ms chunk) { collected = []; is_collecting = false },
        )
  unfolding collect get_message
  whole_in_one ms idle h = ground arith

  first_of_many :
      (ms : MessageStream)
      → ms.is_collecting ≡ false
      → ms.collected ≡ []
      → length chunk.payload < chunk.header.message_length
      → chunk.header.message_length < 2 ^ 32
      → collect
          (record ms { format = chunk.basic.format; chunk_stream_id = chunk.basic.chunk_stream_id })
          chunk
        ≡ (
          none,
          record (started ms chunk) {
            collected = chunk.payload;
            is_collecting = true;
            remain = chunk.header.message_length - length chunk.payload;
          },
        )
  unfolding collect
  first_of_many ms idle empty h small =
      let e : ms.collected ++ chunk.payload ≡ chunk.payload = rw empty in ground (arith, e)

module _ (c : MessageCollector) (chunk : Chunk) where
  abbrev id : ℕ
  id = chunk.header.message_stream_id

  handle-Ready :
      (o : Option MessageStream) (out : Option Message × MessageStream)
      → c.streams id ≡ o
      → Ready chunk.basic.format o
      → collect
          (record (message_stream_or_new o) {
            format = chunk.basic.format;
            chunk_stream_id = chunk.basic.chunk_stream_id;
          })
          chunk
        ≡ out
      → handle_receive_chunk c chunk ≡ ok (out.0, record c { streams = update c.streams id out.1 })
  unfolding handle_receive_chunk
  handle-Ready none out known ready e =
      let first : (chunk.basic.format == 0) ≡ true = ground arith in
      rw (known, handle_receive_chunk) (rw first (rw e))
  handle-Ready (some ms) out known ready e = rw (known, handle_receive_chunk) (rw e)

  -- The first chunk of a message, where it is the whole message and where it is not.
  pub collect_whole :
      (o : Option MessageStream)
      → c.streams id ≡ o
      → Ready chunk.basic.format o
      → chunk.header.message_length ≡ length chunk.payload
      → handle_receive_chunk c chunk
        ≡ ok (
          some (message_of chunk chunk.payload),
          record c {
            streams = update c.streams id (record (started (message_stream_or_new o) chunk) {
              collected = [];
              is_collecting = false;
            });
          },
        )
  collect_whole none known ready h =
      handle-Ready none _ known ready (whole_in_one chunk new_message_stream refl h)
  collect_whole (some ms) known ready h =
      handle-Ready (some ms) _ known ready (whole_in_one chunk ms ready.0 h)

  pub collect_first :
      (o : Option MessageStream)
      → c.streams id ≡ o
      → Ready chunk.basic.format o
      → length chunk.payload < chunk.header.message_length
      → chunk.header.message_length < 2 ^ 32
      → handle_receive_chunk c chunk
        ≡ ok (
          none,
          record c {
            streams = update c.streams id (record (started (message_stream_or_new o) chunk) {
              collected = chunk.payload;
              is_collecting = true;
              remain = chunk.header.message_length - length chunk.payload;
            });
          },
        )
  collect_first none known ready h small =
      handle-Ready none _ known ready (first_of_many chunk new_message_stream refl refl h small)
  collect_first (some ms) known ready h small =
      handle-Ready (some ms) _ known ready (first_of_many chunk ms ready.0 ready.1 h small)
