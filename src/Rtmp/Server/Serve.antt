-- ===== src/Rtmp/Server/Serve.antt =====
-- protocol/rtmp/serverHandler.go: the loop of the server's handler, its end, and what a sink is sent.
use golive.Common.{ℕ, zero, suc, ◌%◌, ◌^◌, ◌||◌, List, [], ◌∷◌, ◌++◌, drop}
use golive.Common.{◌==◌, if◌then◌else◌}
use golive.Common.Go.{Result, ok, err, panic, stuck, ◌>>=◌}
use golive.Common.Go.Reader.{Reader}
use golive.ByteIo.Get.{u8}
use golive.Flv.{ExData, DataType, type_audio, type_audio_config, type_video}
use golive.Flv.{type_video_key_frame, type_video_non_key_frame, type_video_config}
use golive.Flv.{type_data_amf0, type_data_amf3}
use golive.Rtmp.Message.{Message}
use golive.Rtmp.Packer.{write_message}
use golive.Rtmp.Unpacker.{get_rtmp_message}
use golive.Rtmp.Control.{handle_protocol_control_message}
use golive.Rtmp.Status.{hand_success, stop}
use golive.Rtmp.Server.{
  RtmpHandler, World, Outcome, done, fail, ◌>>>◌, write_out, no_role, new_rtmp_handler,
}
use golive.Rtmp.Server.{source, sink, PadCall, destroy_source, destroy_sink}
use golive.Rtmp.Server.Media.{handle_audio_message, handle_video_message, handle_data_message}
use golive.Rtmp.Server.Command.{handle_command_message}

-- The event type is read, and only logged.
unfoldable pub handle_user_control_message : RtmpHandler → Message → Outcome
handle_user_control_message h m = u8 m.payload >>= λ b0. u8 (drop 1 m.payload) >>= λ b1. done h

-- The switch on the type of a message. Shared objects and aggregates do nothing.
unfoldable pub handle_message : World → RtmpHandler → Message → Outcome
handle_message world h m =
    let t = m.message_type in
    if t == 1 || t == 2 || t == 3 || t == 5 || t == 6
    then (handle_protocol_control_message h.chunk_unpacker m >>= λ u.
        done (record h { chunk_unpacker = u }))
    else if t == 4
    then handle_user_control_message h m
    else if t == 8
    then handle_audio_message world h m
    else if t == 9
    then handle_video_message world h m
    else if t == 15 || t == 18
    then handle_data_message world h m
    else if t == 17 || t == 20
    then handle_command_message world h m
    else done h

unfoldable pub last_call : RtmpHandler → List PadCall
last_call h = elim h.role [
  | source ↦ destroy_source h.app_stream_key ∷ []
  | sink ↦ destroy_sink h.app_stream_key ∷ []
  | no_role ↦ []
]

-- `stop`
unfoldable pub stop_handler : RtmpHandler → RtmpHandler
stop_handler h = record h { calls = h.calls ++ last_call h; status = stop }

-- The handler when the loop of `Start` begins, after the handshake.
unfoldable pub started : RtmpHandler
started = record new_rtmp_handler { status = hand_success }

-- The loop of `Start`, on fuel: a round for each message. `err` is the error that ends it.
unfoldable pub serve_loop : World → ℕ → RtmpHandler → Reader → Outcome
serve_loop world zero h r = stuck
serve_loop world (suc fuel) h r =
    let (result, u) = get_rtmp_message h.chunk_unpacker r in
    let h1 = record h { chunk_unpacker = u } in
    elim result [
      | ok (m, r') ↦ handle_message world h1 m >>> λ h2. serve_loop world fuel h2 r'
      | err e ↦ fail h1 e
      | panic ↦ panic
      | stuck ↦ stuck
    ]

-- What a sink writes for data of the exchange.
unfoldable pub message_type_of : DataType → Result ℕ
message_type_of type_audio = ok 8
message_type_of type_audio_config = ok 8
message_type_of type_video = ok 9
message_type_of type_video_key_frame = ok 9
message_type_of type_video_non_key_frame = ok 9
message_type_of type_video_config = ok 9
message_type_of type_data_amf0 = ok 0x14
message_type_of type_data_amf3 = ok 0x11
message_type_of _ = panic

-- `h.chunkPacker.WriteMessage(h.rw, m)`
unfoldable pub send_message : World → RtmpHandler → Message → Outcome
send_message world h m = elim (write_message h.chunk_packer m) [
  | ok (p, w) ↦ write_out world (record h { chunk_packer = p }) w
  | err e ↦ fail h e
  | panic ↦ panic
  | stuck ↦ stuck
]

unfoldable pub write_ex_data : World → RtmpHandler → ExData → Outcome
write_ex_data world h d = message_type_of d.data_type >>= λ t. send_message world h (record {
  message_type = t;
  timestamp = d.timestamp % 2 ^ 32;
  stream_id = 0;
  payload = d.payload;
})

unfoldable pub send_as_functional : World → RtmpHandler → Message → Outcome
send_as_functional world h m =
    send_message world h (record m { stream_id = h.functional_stream_id })
