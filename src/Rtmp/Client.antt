-- ===== src/Rtmp/Client.antt =====
-- protocol/rtmp/clientHandler.go: the client's side of one RTMP connection.
pub mod Response
pub mod Request
pub mod Handle
pub mod Diagram
mod Keeps
mod Answers
pub mod Follows
pub mod Start
pub mod Accepts
mod Answering
mod Built
pub mod Publishes
pub mod Refused
pub mod Examples
use golive.Common.{ℕ, Bool, Option, none, some, List, [], ◌∷◌, ◌++◌, not, ◌&&◌, ◌==◌, if◌then◌else◌}
use golive.Common.Go.{Result, Error, ok, err, panic, stuck, ◌>>=◌, wrong_role}
use golive.Common.Go.Strings.{GoString}
use golive.Rtmp.Message.{Message}
use golive.Rtmp.Outcome.{Ran, done, fail}
use golive.Rtmp.Packer.{ChunkPacker, new_chunk_packer, write_message}
use golive.Rtmp.Unpacker.{ChunkUnpacker, new_chunk_unpacker}
use golive.Rtmp.Status.{init}

pub record RtmpUrl : Type 0 where
  pub app_name : GoString
  pub stream_name : GoString
  pub tcurl : GoString
  pub origin_url : GoString

-- `ROLE_PLAY` and `ROLE_PUBLISH`
pub data ClientRole : Type 0 where
  play publish : ClientRole

-- `written` and `played` are not fields in Go: they list what the handler has written to the
-- connection and handed to the player. `player` says whether there is one.
pub record RtmpClientHandler : Type 0 where
  pub chunk_unpacker : ChunkUnpacker
  pub chunk_packer : ChunkPacker
  pub rtmp_url : RtmpUrl
  pub status : ℕ
  pub transaction_id : ℕ
  pub functional_stream_id : ℕ
  pub player : Bool
  pub role : ClientRole
  pub written : List ℕ
  pub played : List Message

abbrev pub Outcome : Type 0
Outcome = Ran RtmpClientHandler

-- `chunkPacker.WriteMessage(w, msg)` of a message that was built, with `on_write` the answer of the
-- connection to a write. No message that the handler sends makes the packer fail, so that what
-- it leaves then is not met.
unfoldable pub send : (List ℕ → Option Error) → Result Message → RtmpClientHandler → Outcome
send on_write m h = elim (m >>= write_message h.chunk_packer) [
  | ok (p, w) ↦ elim (on_write w) [
    | none ↦ done (record h { chunk_packer = p; written = h.written ++ w })
    | some e ↦ fail (record h { chunk_packer = p }) e
  ]
  | err e ↦ fail h e
  | panic ↦ panic
  | stuck ↦ stuck
]
