-- ===== src/Rtmp/Client/Handle.antt =====
-- protocol/rtmp/clientHandler.go: what the client does with each message that it receives, and the
-- messages that it sends as a publisher.
use golive.Common.{ℕ, zero, suc, ◌+◌, ◌*◌, ◌%◌, ◌^◌, Bool, true, false, ◌||◌, Option, none, some}
use golive.Common.{List, [], ◌∷◌, ◌++◌, drop, ◌==◌, if◌then◌else◌}
use golive.Common.Go.{Result, Error, ok, err, panic, stuck, ◌>>=◌, wrong_role}
use golive.Common.Go.{wrong_state, no_stream_id, not_publishing}
use golive.Common.Go.Float.{negsuc}
use golive.Common.Go.Reader.{Reader}
use golive.Common.Go.Strings.{GoString}
use golive.ByteIo.Get.{u8}
use golive.Rtmp.Message.{Message}
use golive.Rtmp.Outcome.{done, fail, ◌>>>◌}
use golive.Rtmp.Packer.{new_chunk_packer}
use golive.Rtmp.Packer
use golive.Rtmp.Unpacker.{new_chunk_unpacker, get_rtmp_message}
use golive.Rtmp.Control.{handle_protocol_control_message, new_set_chunk_size_message}
use golive.Rtmp.Control.{new_ack_message, new_set_buffer_length_message}
use golive.Rtmp.Commands.{new_release_stream_message, new_fc_publish_message}
use golive.Rtmp.Commands.{new_create_stream_message, new_publish_message, new_play_message}
use golive.Rtmp.Commands.{new_get_stream_length_message}
use golive.Rtmp.Status.{init, connect_send, connect_success, crtstm_send, crtstrm_success}
use golive.Rtmp.Status.{publish_send, publish_success, play_send, stream_is_record, stream_begin}
use golive.Rtmp.Status.{play_reset, send_fail}
use golive.Rtmp.Client.{ClientRole, play, publish, RtmpClientHandler, Outcome, send}
use golive.Rtmp.Client.Request.{parse_rtmp_url, send_connect_message}
use golive.Rtmp.Client.Response.{Outside, handle_connect_response, handle_create_stream_response}
use golive.Rtmp.Client.Response.{handle_publish_response, handle_play_response_reset}
use golive.Rtmp.Client.Response.{handle_play_response_start}

-- A player without a `Play` is refused, a publisher is not.
unfoldable pub new_rtmp_client_handler : GoString → ClientRole → Bool → Result RtmpClientHandler
new_rtmp_client_handler url role player =
    let made : Result RtmpClientHandler = parse_rtmp_url url >>= λ rtmp_url. ok (record {
      chunk_unpacker = new_chunk_unpacker;
      chunk_packer = new_chunk_packer;
      rtmp_url = rtmp_url;
      status = init;
      transaction_id = 1;
      functional_stream_id = 0;
      player = player;
      role = role;
      written = [];
      played = [];
    }) in
    elim role [ play ↦ if player then made else err wrong_role | publish ↦ made ]

abbrev pub is_play : ClientRole → Bool
is_play play = true
is_play publish = false

abbrev pub set_status : ℕ → RtmpClientHandler → Outcome
set_status s h = done (record h { status = s })

-- `h.transactionId++`
abbrev pub next_transaction : RtmpClientHandler → Outcome
next_transaction h = done (record h { transaction_id = (h.transaction_id + 1) % 2 ^ 32 })

-- A call of a method of `h.player`.
unfoldable pub give_player : RtmpClientHandler → Message → Outcome
give_player h m = if h.player then done (record h { played = h.played ++ (m ∷ []) }) else panic

-- The events `StreamBegin` and `StreamIsRecorded`; the others are only logged.
unfoldable pub handle_event : RtmpClientHandler → ℕ → Outcome
handle_event h event =
    if event == 0
    then (if h.status == stream_is_record || h.status == play_send
        then set_status stream_begin h
        else fail h (wrong_state h.status))
    else if event == 4
    then (if h.status == play_send
        then set_status stream_is_record h
        else fail h (wrong_state h.status))
    else done h

unfoldable pub handle_user_control : RtmpClientHandler → Message → Outcome
handle_user_control h m =
    u8 m.payload >>= λ b0. u8 (drop 1 m.payload) >>= λ b1. handle_event h (b0 * 256 + b1)

-- With the answers of the connection to a write.
module _ (out : Outside) (on_write : List ℕ → Option Error) where
  -- An answer that is read, and its error as one of the method.
  unfoldable pub answered : {A : Type 0} → RtmpClientHandler → Result A → (A → Outcome) → Outcome
  answered h (ok a) next = next a
  answered h (err e) next = fail h e
  answered h panic next = panic
  answered h stuck next = stuck

  unfoldable pub prepare : ClientRole → RtmpClientHandler → Outcome
  prepare play h = send on_write (new_ack_message 2500000) h
  prepare publish h =
      send on_write (new_release_stream_message h.transaction_id h.rtmp_url.stream_name) h
      >>> next_transaction
      >>> (λ h1.
          send on_write (new_fc_publish_message h1.transaction_id h1.rtmp_url.stream_name) h1)
      >>> next_transaction

  -- After the answer to connect.
  unfoldable pub on_connected : RtmpClientHandler → Outcome
  on_connected h =
      let h1 = record h {
        status = connect_success;
        chunk_packer = Packer.set_chunk_size h.chunk_packer 1024;
      } in
      send on_write (new_set_chunk_size_message 1024) h1
      >>> prepare h.role
      >>> (λ h2. send on_write (new_create_stream_message h2.transaction_id none) h2)
      >>> next_transaction
      >>> set_status crtstm_send

  -- After the answer to createStream.
  unfoldable pub on_created : ClientRole → RtmpClientHandler → Outcome
  on_created play h =
      send on_write (new_get_stream_length_message h.transaction_id h.rtmp_url.stream_name) h
      >>> next_transaction
      >>> (λ h1.
          send on_write (new_play_message h1.transaction_id h1.rtmp_url.stream_name (negsuc 1999))
            h1)
      >>> next_transaction
      >>> (λ h2. send on_write (new_set_buffer_length_message h2.transaction_id 1000) h2)
      >>> next_transaction
      >>> set_status play_send
  on_created publish h =
      send on_write
        (new_publish_message h.transaction_id h.rtmp_url.app_name h.rtmp_url.stream_name) h
      >>> next_transaction
      >>> set_status publish_send

  -- `err == error_Undefined`
  abbrev pub is_no_stream_id : Error → Bool
  is_no_stream_id no_stream_id = true
  is_no_stream_id _ = false

  -- The answer to createStream sets the stream id, to 0 on an error; that of an undefined stream id is
  -- passed over.
  unfoldable pub created : RtmpClientHandler → Result ℕ → Outcome
  created h (ok id) =
      on_created h.role (record h { functional_stream_id = id; status = crtstrm_success })
  created h (err e) =
      let h' = record h { functional_stream_id = 0 } in
      if is_no_stream_id e then done h' else fail h' e
  created h panic = panic
  created h stuck = stuck

  unfoldable pub on_play_start : RtmpClientHandler → Message → Outcome
  on_play_start h m =
      if is_play h.role
      then answered h (handle_play_response_start out m.payload)
          (λ status. if status == 0 then done h else set_status status h)
      else fail h wrong_role

  -- The error of the reset is logged and dropped.
  unfoldable pub on_play_reset : RtmpClientHandler → Message → Outcome
  on_play_reset h m =
      let next = on_play_start (record h { status = play_reset }) m in
      let answer : Outcome = elim (handle_play_response_reset out m.payload) [
        | ok tt' ↦ next
        | err e ↦ next
        | panic ↦ panic
        | stuck ↦ stuck
      ] in
      if is_play h.role then answer else fail h wrong_role

  -- The switch on the status.
  unfoldable pub run_answer : RtmpClientHandler → Message → Outcome
  run_answer h m =
      if h.status == connect_send
      then answered h (handle_connect_response out m.payload) (λ _. on_connected h)
      else if h.status == crtstm_send
      then created h (handle_create_stream_response out m.payload 0)
      else if h.status == stream_begin
      then on_play_reset h m
      else if h.status == play_reset
      then on_play_start h m
      else if h.status == publish_send
      then (if is_play h.role
          then fail h wrong_role
          else answered h (handle_publish_response out m.payload)
              (λ _. set_status publish_success h))
      else if h.status == publish_success
      then (if is_play h.role then fail h wrong_role else done h)
      else done h

  -- Command messages of both encodings are read as AMF0.
  unfoldable pub handle_command : RtmpClientHandler → Message → Outcome
  handle_command h m =
      if m.message_type == 17 || m.message_type == 20 then run_answer h m else done h

  unfoldable pub handle_receive_message : RtmpClientHandler → Message → Outcome
  handle_receive_message h m =
      let t = m.message_type in
      if t == 1 || t == 2 || t == 3 || t == 5 || t == 6
      then (handle_protocol_control_message h.chunk_unpacker m >>= λ u.
          done (record h { chunk_unpacker = u }))
      else if t == 4
      then handle_user_control h m
      else if t == 17 || t == 20
      then handle_command h m
      else if t == 8 || t == 9 || t == 15 || t == 18
      then give_player h m
      else done h

  -- The loop of `Start` after the handshake, on fuel, until the client may publish.
  unfoldable pub connect_rounds : ℕ → RtmpClientHandler → Reader → Outcome
  connect_rounds zero h r = stuck
  connect_rounds (suc fuel) h r =
      let (result, u) = get_rtmp_message h.chunk_unpacker r in
      let h1 = record h { chunk_unpacker = u } in
      elim result [
        | ok (m, r') ↦ handle_receive_message h1 m >>> λ h2.
            (let more = connect_rounds fuel h2 r' in
              if h2.status == publish_success then done h2 else more)
        | err e ↦ fail h1 e
        | panic ↦ panic
        | stuck ↦ stuck
      ]

  -- `Start` from the end of the handshake.
  unfoldable pub start_client : ℕ → RtmpClientHandler → Reader → Outcome
  start_client fuel h r = send_connect_message on_write h >>> λ h1.
      connect_rounds fuel (record h1 { status = connect_send }) r

  abbrev is_stream_type : ℕ → Bool
  is_stream_type t = t == 8 || t == 9 || t == 0x12 || t == 0xf

  unfoldable pub send_message : RtmpClientHandler → Message → Outcome
  send_message h m =
      let addressed =
        if is_stream_type m.message_type
        then (record m { stream_id = h.functional_stream_id })
        else m in
      if h.status == publish_success then send on_write (ok addressed) h else fail h not_publishing

  -- The second loop of `Start`: the messages that arrive on `txMsgChan`, until one cannot be sent.
  unfoldable pub send_rounds : RtmpClientHandler → List Message → Outcome
  send_rounds h [] = done h
  send_rounds h (m ∷ rest) = elim (send_message h m) [
    | ok (h1, none) ↦ send_rounds h1 rest
    | ok (h1, some e) ↦ fail (record h1 { status = send_fail }) e
    | err e ↦ err e
    | panic ↦ panic
    | stuck ↦ stuck
  ]

-- `SendAudioMessage` and `SendVideoMessage`: the message that is put on `txMsgChan`.
unfoldable pub media_message : ℕ → RtmpClientHandler → List ℕ → ℕ → Result Message
media_message t h content timestamp =
    if h.status == publish_success
    then ok (record { message_type = t; timestamp = timestamp; stream_id = 0; payload = content })
    else err not_publishing

unfoldable pub send_audio_message : RtmpClientHandler → List ℕ → ℕ → Result Message
send_audio_message h content timestamp = media_message 8 h content timestamp

unfoldable pub send_video_message : RtmpClientHandler → List ℕ → ℕ → Result Message
send_video_message h content timestamp = media_message 9 h content timestamp
