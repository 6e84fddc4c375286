-- ===== src/Rtmp/Message.antt =====
-- protocol/rtmp/message.go: messages, the collector that joins chunks to messages, and the cut of a
-- message into chunks. A Go map with integer keys is a function into `Option`.
pub mod Split
use golive.Common.{ℕ, zero, suc, ◌+◌, ◌-◌, ◌%◌, ◌^◌, Bool, true, false, not, Option, none, some}
use golive.Common.{List, [], ◌∷◌, ◌++◌, length, take, drop, ◌==◌, ltb, leb, if◌then◌else◌}
use golive.Common.Go.{Result, ok, panic, stuck, ◌>>=◌}
use golive.Common.Go.Map.{update}
use golive.Rtmp.Chunk.{ChunkBasicHeader, ChunkMessageHeader, Chunk}

pub record Message : Type 0 where
  pub message_type : ℕ
  pub timestamp : ℕ
  pub stream_id : ℕ
  pub payload : List ℕ

pub record MessageStream : Type 0 where
  pub message_stream_id : ℕ
  pub chunk_stream_id : ℕ
  pub format : ℕ
  pub timestamp : ℕ
  pub timestamp_delta : ℕ
  pub message_length : ℕ
  pub message_type_id : ℕ
  pub remain : ℕ
  pub is_collecting : Bool
  pub collected : List ℕ

abbrev pub new_message_stream : MessageStream
new_message_stream = record {
  message_stream_id = 0;
  chunk_stream_id = 0;
  format = 0;
  timestamp = 0;
  timestamp_delta = 0;
  message_length = 0;
  message_type_id = 0;
  remain = 0;
  is_collecting = false;
  collected = [];
}

pub record MessageCollector : Type 0 where
  pub streams : ℕ → Option MessageStream

unfoldable pub new_message_collector : MessageCollector
new_message_collector = record { streams = λ _. none }

-- `getMessage`: the message, and the stream with its buffer emptied
unfoldable pub get_message : MessageStream → Message × MessageStream
get_message ms = (
  record {
    message_type = ms.message_type_id;
    timestamp = ms.timestamp;
    stream_id = ms.message_stream_id;
    payload = ms.collected;
  },
  record ms { collected = []; is_collecting = false },
)

-- The stream of the chunk, its format and chunk stream id written, with the chunk's data added. The
-- message is there when it is complete.
unfoldable pub collect : MessageStream → Chunk → Option Message × MessageStream
collect ms chunk =
    let size = length chunk.payload in
    let more = record ms {
      collected = ms.collected ++ chunk.payload;
      remain = (ms.remain + 2 ^ 32 - size) % 2 ^ 32;
    } in
    let first = record ms {
      timestamp = chunk.header.timestamp;
      message_length = chunk.header.message_length;
      message_type_id = chunk.header.message_type_id;
      message_stream_id = chunk.header.message_stream_id;
    } in
    let whole = record first { collected = chunk.payload } in
    let joined = ms.collected ++ chunk.payload in
    let begun = record first {
      collected = joined;
      is_collecting = true;
      remain = (chunk.header.message_length + 2 ^ 32 - length joined) % 2 ^ 32;
    } in
    if ms.is_collecting
    then (if more.remain == 0
        then (let (m, ms') = get_message (record more { is_collecting = false }) in (some m, ms'))
        else (none, more))
    else (if first.message_length == size
        then (let (m, ms') = get_message whole in (some m, ms'))
        else (none, begun))

-- A chunk of a message stream that is not known must have format 0.
unfoldable pub handle_receive_chunk :
    MessageCollector → Chunk → Result (Option Message × MessageCollector)
handle_receive_chunk s chunk =
    let id = chunk.header.message_stream_id in
    let on = λ (ms : MessageStream).
      let seen = record ms {
        format = chunk.basic.format;
        chunk_stream_id = chunk.basic.chunk_stream_id;
      } in
      let (m, ms') = collect seen chunk in ok (m, record s { streams = update s.streams id ms' }) in
    elim (s.streams id) [
      | none ↦ if chunk.basic.format == 0 then on new_message_stream else panic
      | some ms ↦ on ms
    ]

-- The loop of `ToType0Chunk`. A round with a chunk size of 0 takes nothing off the payload: the Go
-- loop then never ends, and the model's fuel runs out.
unfoldable pub split : ℕ → List ℕ → ℕ → Result (List (List ℕ))
split fuel [] chunk_size = ok []
split zero (b ∷ payload) chunk_size = stuck
split (suc fuel) (b ∷ payload) chunk_size = elim (leb (length (b ∷ payload)) chunk_size) [
  | true ↦ ok ((b ∷ payload) ∷ [])
  | false ↦ split fuel (drop chunk_size (b ∷ payload)) chunk_size >>= λ rest.
      ok (take chunk_size (b ∷ payload) ∷ rest)
]

-- The chunks of one message. In Go they all point to the same two headers, which the packer writes
-- to, so an array of them is the headers once, and the data of each chunk.
pub record ChunkArray : Type 0 where
  pub basic : ChunkBasicHeader
  pub header : ChunkMessageHeader
  pub payloads : List (List ℕ)

unfoldable pub to_type0_chunk : Message → ℕ → ℕ → Result ChunkArray
unfolding split
to_type0_chunk m chunk_stream_id chunk_size = do
  payloads ← split (length m.payload) m.payload chunk_size
  ok (record {
    basic = record { format = 0; chunk_stream_id = chunk_stream_id };
    header = record {
      timestamp = m.timestamp;
      message_length = length m.payload % 2 ^ 32;
      message_type_id = m.message_type;
      timestamp_exted = ltb 0xffffff m.timestamp;
      time_delta = 0;
      message_stream_id = m.stream_id;
    };
    payloads = payloads;
  })
