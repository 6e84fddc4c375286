-- ===== src/Rtmp/Server/Safety.antt =====
-- What a connection of the server does to the exchange, from its beginning to its end
-- (protocol/rtmp/serverHandler.go).
use golive.Common.{ℕ, zero, suc, refl}
use golive.Common.{◌==◌, drop}
use golive.Common.Go.{Result, ok, err, panic, stuck}
use golive.Common.Go.Reader.{Reader}
use golive.ByteIo.Get.{u8}
use golive.Rtmp.Message.{Message}
use golive.Rtmp.Unpacker.{ChunkUnpacker, get_rtmp_message}
use golive.Rtmp.Control.{handle_protocol_control_message}
use golive.Rtmp.Server.{World, fail, ◌>>>◌, new_rtmp_handler}
use golive.Rtmp.Server.Media.{is_video_codec, is_audio_codec}
use golive.Rtmp.Server.Serve.{handle_user_control_message, handle_message, serve_loop}
use golive.Rtmp.Server.Valid.{nothing, IsValid, Leaves, leaves}
use golive.Rtmp.Server.Valid.{panics, ends, Leaves-then, Leaves-bind, Leaves-if}
use golive.Rtmp.Server.Valid.{IsValid-with}
use golive.Rtmp.Server.Keep.{Keeps, video-Keeps, audio-Keeps, data-Keeps}
use golive.Rtmp.Server.KeepCommand.{command-Keeps}
use golive.Rtmp.Server.Serve.{started}

message-Keeps : (world : World) (m : Message) → Keeps (λ h. handle_message world h m)
unfolding handle_message handle_user_control_message
message-Keeps world m h v =
    Leaves-if _
      (Leaves-bind (handle_protocol_control_message h.chunk_unpacker m) _
        (λ u. leaves (IsValid-with v.protocol v.video v.audio)))
      (Leaves-if (m.message_type == 4)
        (Leaves-bind (u8 m.payload) _
          (λ b0. Leaves-bind (u8 (drop 1 m.payload)) _ (λ b1. leaves v)))
        (Leaves-if (m.message_type == 8) (audio-Keeps world m h v) (
          Leaves-if (m.message_type == 9) (video-Keeps world m h v) (
            Leaves-if _ (data-Keeps world m h v)
              (Leaves-if _ (command-Keeps world m h v) (leaves v))))))

serve_loop-Keeps : (world : World) (fuel : ℕ) (r : Reader) → Keeps (λ h. serve_loop world fuel h r)
unfolding serve_loop
serve_loop-Keeps world zero r h v = ends
serve_loop-Keeps world (suc fuel) r h v =
    go (get_rtmp_message h.chunk_unpacker r).0 (get_rtmp_message h.chunk_unpacker r).1
      (serve_loop-Keeps world fuel)
  where
    go :
        (x : Result (Message × Reader)) (u : ChunkUnpacker)
        → ((r' : Reader) → Keeps (λ h'. serve_loop world fuel h' r'))
        → Leaves IsValid (elim x [
          | ok (m, r') ↦ handle_message world (record h { chunk_unpacker = u }) m >>> λ h2.
              serve_loop world fuel h2 r'
          | err e ↦ fail (record h { chunk_unpacker = u }) e
          | panic ↦ panic
          | stuck ↦ stuck
        ])
    go (ok (m, r')) u next =
        Leaves-then _ _ (message-Keeps world m _ (IsValid-with v.protocol v.video v.audio))
          (next r')
    go (err e) u next = leaves (IsValid-with v.protocol v.video v.audio)
    go panic u next = panics
    go stuck u next = ends

-- However many messages a connection sends after the handshake, and however the exchange and the
-- connection answer, what the server's handler leaves when it returns is valid: it has put data
-- only after it determined a source, its role is that of its last such call, and its codecs are
-- unknown or supported ones.
pub serve-IsValid :
    (world : World) (fuel : ℕ) (r : Reader) → Leaves IsValid (serve_loop world fuel started r)
unfolding started new_rtmp_handler is_video_codec is_audio_codec
serve-IsValid world fuel r = serve_loop-Keeps world fuel r _ (IsValid-with nothing refl refl)
