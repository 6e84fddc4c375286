-- ===== src/Rtmp/Chunk.antt =====
-- protocol/rtmp/chunk.go: the headers of a chunk and what the two sides remember of a chunk stream.
-- The Go structs embed the two headers; here they are the fields `basic` and `header`.
pub mod Read
pub mod Write
pub mod BasicHeader
pub mod MessageHeader
use golive.Common.{ℕ, Bool, true, false, Option, none, some, List}

pub record ChunkBasicHeader : Type 0 where
  pub format : ℕ
  pub chunk_stream_id : ℕ

pub record ChunkMessageHeader : Type 0 where
  pub timestamp : ℕ
  pub message_length : ℕ
  pub message_type_id : ℕ
  pub timestamp_exted : Bool
  pub time_delta : ℕ
  pub message_stream_id : ℕ

pub record Chunk : Type 0 where
  pub basic : ChunkBasicHeader
  pub header : ChunkMessageHeader
  pub payload : List ℕ

pub record ChunkStream : Type 0 where
  pub basic : ChunkBasicHeader
  pub header : ChunkMessageHeader
  pub chunk_stream_id : ℕ
  pub remain : ℕ

-- The zero values of Go.
abbrev pub zero_basic : ChunkBasicHeader
zero_basic = record { format = 0; chunk_stream_id = 0 }

abbrev pub zero_header : ChunkMessageHeader
zero_header = record {
  timestamp = 0;
  message_length = 0;
  message_type_id = 0;
  timestamp_exted = false;
  time_delta = 0;
  message_stream_id = 0;
}

-- `&ChunkStream{}` with its `ChunkStreamID` set
abbrev pub new_chunk_stream : ℕ → ChunkStream
new_chunk_stream csid = record {
  basic = zero_basic;
  header = zero_header;
  chunk_stream_id = csid;
  remain = 0;
}

-- `cs, ok := streams[csid]; if !ok { cs = &ChunkStream{} … }`
abbrev pub is_known : Option ChunkStream → Bool
is_known none = false
is_known (some cs) = true

abbrev pub stream_or_new : ℕ → Option ChunkStream → ChunkStream
stream_or_new csid none = new_chunk_stream csid
stream_or_new csid (some cs) = cs
