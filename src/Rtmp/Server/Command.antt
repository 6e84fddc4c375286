-- ===== src/Rtmp/Server/Command.antt =====
-- protocol/rtmp/serverHandler.go: the command messages of a client.
use golive.Common.{ℕ, zero, true, suc, ◌+◌, ◌==◌, Option, none, some, List, [], ◌∷◌, ◌++◌, length}
use golive.Common.{if◌then◌else◌}
use golive.Common.Go.{Result, ok, err, panic, stuck, ◌>>=◌}
use golive.Common.Go.Float.{ℤ, pos, to_int}
use golive.Common.Go.Strings.{GoString, ascii, same}
use golive.Amf.{Value, Fields}
use golive.Amf.Objects.{find}
use golive.Amf.Read.{Rest, read_value}
use golive.Rtmp.Message.{Message}
use golive.Rtmp.Packer.{set_chunk_size, get_chunk_size}
use golive.Rtmp.Control.{new_ack_message, new_set_peer_bandwidth_message}
use golive.Rtmp.Control.{new_set_chunk_size_message, new_stream_begin, new_stream_is_recorded}
use golive.Rtmp.Commands.{new_connect_success_message, new_create_stream_success_message}
use golive.Rtmp.Commands.{new_publish_success_message, new_play_reset_message}
use golive.Rtmp.Commands.{new_play_start_message, new_data_start_message}
use golive.Rtmp.Commands.{new_play_publish_notify_message}
use golive.Rtmp.Status.{hand_success, connect_success, connect_fail, crtstrm_success, crtstrm_fail}
use golive.Rtmp.Status.{publish_success, publish_fail, play_start, play_fail}
use golive.Rtmp.Server.{RtmpHandler, World, Outcome, done, fail, ◌>>>◌, serializing, write_out}
use golive.Rtmp.Server.{source, sink, source_determined, sink_determined}
use golive.Rtmp.Server.Media.{for_values, is_eof, number_of, string_of, object_of, asserted}

-- The two values after `connect`.
unfoldable pub connect_value : RtmpHandler → ℕ → Value → Outcome
connect_value h zero v = asserted (number_of v) >>= λ f. done h
connect_value h (suc i) v =
    asserted (object_of v) >>= λ cmd_obj. done (record h { connect_cmd_obj = some cmd_obj })

-- The part of `handleConnectCommand` from the change of the chunk size, which an error undoes.
unfoldable pub connect_reply : World → RtmpHandler → List ℕ → Outcome
connect_reply world h w =
    let bak_chunk_size = get_chunk_size h.chunk_packer in
    let sized = record h { chunk_packer = set_chunk_size h.chunk_packer 1024 } in
    let written =
      serializing sized (new_set_chunk_size_message (get_chunk_size sized.chunk_packer)) w
        (λ h' w'. serializing h' new_connect_success_message w' (write_out world)) in
    elim written [
      | ok (h', none) ↦ done h'
      | ok (h', some e) ↦
          fail (record h' { chunk_packer = set_chunk_size h'.chunk_packer bak_chunk_size }) e
      | err e ↦ err e
      | panic ↦ panic
      | stuck ↦ stuck
    ]

unfoldable pub handle_connect_command : World → RtmpHandler → Rest → Outcome
handle_connect_command world h r =
    if h.status == hand_success
    then (for_values world connect_value done 2 0 h r >>> λ h1.
        serializing h1 (new_ack_message 2500000) [] (λ h2 w.
          serializing h2 (new_set_peer_bandwidth_message 2500000 2) w (connect_reply world)))
    else panic

abbrev pub next_id : (ℕ → ℤ) → Option ℕ → ℤ → ℤ
next_id beyond none transaction_id = transaction_id
next_id beyond (some f) transaction_id = to_int beyond f

-- The loop of `handleCreateStreamCommand` on fuel: the transaction id is the last number.
unfoldable pub create_stream_loop : World → ℕ → ℤ → Rest → Result ℤ
create_stream_loop world zero transaction_id r = stuck
create_stream_loop world (suc fuel) transaction_id r = elim (read_value world.amf3_read_value r) [
  | ok (v, r') ↦
      create_stream_loop world fuel (next_id world.beyond (number_of v) transaction_id) r'
  | err e ↦ if is_eof e then ok transaction_id else err e
  | panic ↦ panic
  | stuck ↦ stuck
]

unfoldable pub handle_create_stream_command : World → RtmpHandler → Rest → Outcome
handle_create_stream_command world h r =
    let replied : Outcome = elim (create_stream_loop world (length r + 1) (pos 0) r) [
      | ok transaction_id ↦
          serializing h (new_create_stream_success_message transaction_id) [] (write_out world)
      | err e ↦ fail h e
      | panic ↦ panic
      | stuck ↦ stuck
    ] in
    if h.status == connect_success then replied else panic

-- `h.connetCmdObj["app"].(string) + "-" + str`
unfoldable pub stream_key : Option Fields → GoString → Result GoString
stream_key none str = panic
stream_key (some cmd_obj) str = do
  v ← asserted (find (ascii "app") cmd_obj)
  app ← asserted (string_of v)
  ok (app ++ (ascii "-" ++ str))

-- The four values after `publish`.
unfoldable pub publish_value : RtmpHandler → ℕ → Value → Outcome
publish_value h zero v = asserted (number_of v) >>= λ f. done h
publish_value h (suc zero) v = done h
publish_value h (suc (suc zero)) v = do
  str ← asserted (string_of v)
  key ← stream_key h.connect_cmd_obj str
  done (record h { publish_name = str; app_stream_key = key })
publish_value h (suc (suc (suc i))) v =
    asserted (string_of v) >>= λ str. done (record h { publish_type = str })

unfoldable pub handle_publish_command : World → RtmpHandler → Rest → Outcome
handle_publish_command world h r = for_values world publish_value done 4 0 h r >>> λ h1.
    serializing h1 new_publish_success_message [] (write_out world)

-- The values after `play`.
unfoldable pub play_value : RtmpHandler → ℕ → Value → Outcome
play_value h zero v = asserted (number_of v) >>= λ f. done h
play_value h (suc zero) v = done h
play_value h (suc (suc zero)) v = do
  str ← asserted (string_of v)
  key ← stream_key h.connect_cmd_obj str
  done (record h { play_stream_name = str; app_stream_key = key })
play_value h (suc (suc (suc i))) v = done h

-- One message in a write of its own.
unfoldable pub send_alone : World → Result Message → RtmpHandler → Outcome
send_alone world m h = serializing h m [] (write_out world)

unfoldable pub play_reply : World → RtmpHandler → ℕ → Outcome
play_reply world h id =
    let h1 = record h { functional_stream_id = id } in
    serializing h1 (new_stream_is_recorded id) [] (λ h2 w.
      serializing h2 (new_stream_begin id) w
        (λ h3 w'. serializing h3 (new_play_reset_message id) w' (write_out world)))
    >>> send_alone world (new_play_start_message id)
    >>> send_alone world (new_data_start_message id)
    >>> send_alone world (new_play_publish_notify_message id)

-- The loop has no bound in Go; each round takes a byte at least.
unfoldable pub handle_play_command : World → RtmpHandler → Rest → Message → Outcome
handle_play_command world h r m =
    for_values world play_value (λ h'. stuck) (length r + 1) 0 h r >>> λ h1.
    play_reply world h1 m.stream_id

-- `h.pad.OnSourceDetermined`, with the role and the status that follow; `err == nil` and `err != nil`
-- after the handler of the command.
unfoldable pub with_status : ℕ → ℕ → Outcome → Outcome
with_status success failure (ok (h, none)) = done (record h { status = success })
with_status success failure (ok (h, some e)) = fail (record h { status = failure }) e
with_status success failure (err e) = err e
with_status success failure panic = panic
with_status success failure stuck = stuck

unfoldable pub become_source : World → RtmpHandler → Outcome
become_source world h =
    let h' = record h {
      role = source;
      put_msg = true;
      calls = h.calls ++ (source_determined h.app_stream_key ∷ []);
    } in
    ok (h', world.on_source_determined h.calls h.app_stream_key)

unfoldable pub become_sink : World → RtmpHandler → Outcome
become_sink world h =
    let h' = record h { role = sink; calls = h.calls ++ (sink_determined h.app_stream_key ∷ []) } in
    ok (h', world.on_sink_determined h.calls h.app_stream_key)

-- The error of `connect` is not returned.
abbrev pub without_error : Outcome → Outcome
without_error (ok (h, e)) = done h
without_error (err e) = err e
without_error panic = panic
without_error stuck = stuck

-- The switch on the name of the command.
unfoldable pub run_command : World → RtmpHandler → Message → GoString → Rest → Outcome
run_command world h m name r =
    if same name (ascii "connect")
    then without_error (with_status connect_success connect_fail (handle_connect_command world h r))
    else if same name (ascii "createStream")
    then with_status crtstrm_success crtstrm_fail (handle_create_stream_command world h r)
    else if same name (ascii "publish")
    then with_status publish_success publish_fail
        (handle_publish_command world h r >>> become_source world)
    else if same name (ascii "play")
    then with_status play_start play_fail (handle_play_command world h r m >>> become_sink world)
    else done h

-- The first value of the message; what is no string is passed over.
unfoldable pub command_named : World → RtmpHandler → Message → Value → Rest → Outcome
command_named world h m v r = elim (string_of v) [
  | none ↦ done h
  | some name ↦ run_command world h m name r
]

unfoldable pub handle_command_message : World → RtmpHandler → Message → Outcome
handle_command_message world h m =
    let named : Outcome = elim (read_value world.amf3_read_value m.payload) [
      | ok (v, r) ↦ command_named world h m v r
      | err e ↦ fail h e
      | panic ↦ panic
      | stuck ↦ stuck
    ] in
    if m.message_type == 20 then named else done h
