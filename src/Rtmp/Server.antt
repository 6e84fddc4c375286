-- ===== src/Rtmp/Server.antt =====
-- protocol/rtmp/serverHandler.go: the server's side of one RTMP connection.
pub mod Media
pub mod Command
pub mod Serve
pub mod Valid
pub mod Keep
pub mod KeepCommand
pub mod Safety
pub mod Start
pub mod Classify
pub mod Errors
pub mod Reply
pub mod Ends
mod Examples
use golive.Common.{ℕ, ◌+◌, Bool, false, Option, none, some, List, [], ◌∷◌, ◌++◌}
use golive.Common.Go.{Result, Error, ok, err, panic, stuck, ◌>>=◌}
use golive.Common.Go.Float.{ℤ, negsuc}
use golive.Common.Go.Strings.{GoString}
use golive.Flv.{ExData}
use golive.Amf.{Value, Fields}
use golive.Amf.Read.{Rest}
use golive.Rtmp.Message.{Message}
use golive.Rtmp.Outcome.{Ran}
pub use golive.Rtmp.Outcome.{done, fail, ◌>>>◌}
use golive.Rtmp.Packer.{ChunkPacker, new_chunk_packer, message_to_chunk, serializer_chunk}
use golive.Rtmp.Unpacker.{ChunkUnpacker, new_chunk_unpacker}

-- `h.role`: "", "source" or "sink"
pub data Role : Type 0 where
  no_role source sink : Role

-- What the handler asks of the pad, in order.
pub data PadCall : Type 0 where
  source_determined sink_determined destroy_source destroy_sink : GoString → PadCall
  put_data : ExData → PadCall

-- `written` and `calls` are not fields in Go: they list what the handler has written to the
-- connection, and what it has asked of the pad. `put_msg` says whether there is a function to put
-- data with.
pub record RtmpHandler : Type 0 where
  pub chunk_unpacker : ChunkUnpacker
  pub chunk_packer : ChunkPacker
  pub connect_cmd_obj : Option Fields
  pub publish_name : GoString
  pub publish_type : GoString
  pub play_stream_name : GoString
  pub app_stream_key : GoString
  pub av_info : Option Fields
  pub video_codec_id : ℤ
  pub audio_codec_id : ℤ
  pub has_received_av_meta : Bool
  pub functional_stream_id : ℕ
  pub role : Role
  pub put_msg : Bool
  pub status : ℕ
  pub written : List ℕ
  pub calls : List PadCall

unfoldable pub new_rtmp_handler : RtmpHandler
new_rtmp_handler = record {
  chunk_unpacker = new_chunk_unpacker;
  chunk_packer = new_chunk_packer;
  connect_cmd_obj = none;
  publish_name = [];
  publish_type = [];
  play_stream_name = [];
  app_stream_key = [];
  av_info = none;
  video_codec_id = negsuc 0;
  audio_codec_id = negsuc 0;
  has_received_av_meta = false;
  functional_stream_id = 0;
  role = no_role;
  put_msg = false;
  status = 0;
  written = [];
  calls = [];
}

-- What the handler meets outside: the answers of the pad for a stream key and of the function to put
-- data with, after the handler's earlier calls of them; of a write to the connection, by its bytes
-- alone; the reader of AMF3 values; and what `int` of a
-- `float64` out of range is.
pub record World : Type 0 where
  pub on_source_determined : List PadCall → GoString → Option Error
  pub on_sink_determined : List PadCall → GoString → Option Error
  pub on_put : List PadCall → ExData → Option Error
  pub on_write : List ℕ → Option Error
  pub amf3_read_value : Rest → Result (Value × Rest)
  pub beyond : ℕ → ℤ

-- What a method of the handler comes to.
abbrev pub Outcome : Type 0
Outcome = Ran RtmpHandler

-- `MessageToChunk` and `SerializerChunk` onto the buffer `w`. No message that the handler sends makes
-- these two fail, so that the packer they leave then is not met.
unfoldable pub serialize : RtmpHandler → Result Message → List ℕ → Result (RtmpHandler × List ℕ)
serialize h m w = do
  m' ← m
  chunks ← message_to_chunk h.chunk_packer m'
  (p, w') ← serializer_chunk h.chunk_packer chunks w
  ok (record h { chunk_packer = p }, w')

-- `h.rw.Write`
unfoldable pub write_out : World → RtmpHandler → List ℕ → Outcome
write_out world h w = elim (world.on_write w) [
  | none ↦ done (record h { written = h.written ++ w })
  | some e ↦ fail h e
]

-- The serialization of a message, and its error as one of the method.
unfoldable pub serializing :
    RtmpHandler → Result Message → List ℕ → (RtmpHandler → List ℕ → Outcome) → Outcome
serializing h m w next = elim (serialize h m w) [
  | ok (h', w') ↦ next h' w'
  | err e ↦ fail h e
  | panic ↦ panic
  | stuck ↦ stuck
]
