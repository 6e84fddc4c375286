-- ===== src/Rtmp/Server/KeepCommand.antt =====
-- Every command message keeps the server's handler (protocol/rtmp/serverHandler.go) valid.
use golive.Common.{ℕ, zero, suc}
use golive.Common.{none, some, List, [], length, ◌+◌, ◌==◌}
use golive.Common.Go.{Result, Error, ok, err, panic, stuck}
use golive.Common.Go.Float.{ℤ, pos}
use golive.Common.Go.Strings.{GoString, ascii, same}
use golive.Amf.{Value}
use golive.Amf.Read.{Rest, read_value}
use golive.Rtmp.Message.{Message}
use golive.Rtmp.Commands.{new_create_stream_success_message}
use golive.Rtmp.Server.{RtmpHandler, World, Outcome, done, fail, write_out, serializing}
use golive.Rtmp.Server.Media.{for_values, string_of}
use golive.Rtmp.Server.Media.{number_of, object_of, asserted}
use golive.Rtmp.Server.Command.{connect_value, connect_reply, handle_connect_command}
use golive.Rtmp.Server.Command.{create_stream_loop, handle_create_stream_command, stream_key}
use golive.Rtmp.Server.Command.{publish_value, handle_publish_command, play_value, send_alone}
use golive.Rtmp.Server.Command.{play_reply, handle_play_command, with_status, become_source}
use golive.Rtmp.Server.Command.{
  become_sink, run_command, without_error, command_named, handle_command_message,
}
use golive.Rtmp.Server.Valid.{as_source, as_sink, IsValid, Leaves, leaves}
use golive.Rtmp.Server.Valid.{errs, panics, ends, Leaves-then, Leaves-bind, Leaves-if}
use golive.Rtmp.Server.Valid.{Leaves-for_values, Leaves-write_out, Leaves-serializing, IsValid-with}
use golive.Rtmp.Server.Keep.{Keeps, done-Keeps, first_value-Keeps, string-Keeps}

connect_value-Keeps : (i : ℕ) (value : Value) → Keeps (λ h. connect_value h i value)
unfolding connect_value
connect_value-Keeps zero value h v = Leaves-bind (asserted (number_of value)) _ (λ f. leaves v)
connect_value-Keeps (suc i) value h v =
    Leaves-bind (asserted (object_of value)) _
      (λ o. leaves (IsValid-with v.protocol v.video v.audio))

-- What is done about the error of a method.
recover-Keeps :
    (x : Outcome) (good : RtmpHandler → Outcome) (bad : RtmpHandler → Error → Outcome)
    → Leaves IsValid x
    → Keeps good
    → ((e : Error) → Keeps (λ h. bad h e))
    → Leaves IsValid (elim x [
      | ok (h, none) ↦ good h
      | ok (h, some e) ↦ bad h e
      | err e ↦ err e
      | panic ↦ panic
      | stuck ↦ stuck
    ])
recover-Keeps (ok (h, none)) good bad (leaves v) g b = g h v
recover-Keeps (ok (h, some e)) good bad (leaves v) g b = b e h v
recover-Keeps (err e) good bad errs g b = errs
recover-Keeps panic good bad panics g b = panics
recover-Keeps stuck good bad ends g b = ends

reply-Keeps : (world : World) (w : List ℕ) → Keeps (λ h. connect_reply world h w)
unfolding connect_reply
reply-Keeps world w h v =
    recover-Keeps (serializing _ _ w _) _ _
      (Leaves-serializing _ _ w _ (IsValid-with v.protocol v.video v.audio)
        (λ h' w' v'. Leaves-serializing h' _ w' _ v' (λ h2 w2 v2. Leaves-write_out world h2 w2 v2)))
      done-Keeps (λ e h' v'. leaves (IsValid-with v'.protocol v'.video v'.audio))

connect-Keeps : (world : World) (r : Rest) → Keeps (λ h. handle_connect_command world h r)
unfolding handle_connect_command
connect-Keeps world r h v =
    Leaves-if (h.status == 3)
      (Leaves-then (for_values world connect_value done 2 0 h r) _
        (Leaves-for_values world _ _ (λ h' i value. connect_value-Keeps i value h') done-Keeps 2 0 h
          r v)
        (λ h1 v1.
          Leaves-serializing h1 _ [] _ v1
            (λ h2 w v2. Leaves-serializing h2 _ w _ v2 (λ h3 w3 v3. reply-Keeps world w3 h3 v3))))
      panics

create_stream-Keeps :
    (world : World) (r : Rest) → Keeps (λ h. handle_create_stream_command world h r)
unfolding handle_create_stream_command
create_stream-Keeps world r h v =
    Leaves-if (h.status == 11) (go (create_stream_loop world (length r + 1) (pos 0) r)) panics
  where
    go :
        (x : Result ℤ)
        → Leaves IsValid (elim x [
          | ok transaction_id ↦
              serializing h (new_create_stream_success_message transaction_id) [] (write_out world)
          | err e ↦ fail h e
          | panic ↦ panic
          | stuck ↦ stuck
        ])
    go (ok t) = Leaves-serializing h _ [] _ v (λ h' w v'. Leaves-write_out world h' w v')
    go (err e) = leaves v
    go panic = panics
    go stuck = ends

send_alone-Keeps : (world : World) (m : Result Message) → Keeps (send_alone world m)
unfolding send_alone
send_alone-Keeps world m h v =
    Leaves-serializing h m [] _ v (λ h' w v'. Leaves-write_out world h' w v')

publish_value-Keeps : (i : ℕ) (value : Value) → Keeps (λ h. publish_value h i value)
unfolding publish_value
publish_value-Keeps zero value h v = Leaves-bind (asserted (number_of value)) _ (λ f. leaves v)
publish_value-Keeps (suc zero) value h v = leaves v
publish_value-Keeps (suc (suc zero)) value h v = Leaves-bind (asserted (string_of value)) _ (λ s.
    Leaves-bind (stream_key h.connect_cmd_obj s) _
      (λ key. leaves (IsValid-with v.protocol v.video v.audio)))
publish_value-Keeps (suc (suc (suc i))) value h v =
    Leaves-bind (asserted (string_of value)) _
      (λ s. leaves (IsValid-with v.protocol v.video v.audio))

play_value-Keeps : (i : ℕ) (value : Value) → Keeps (λ h. play_value h i value)
unfolding play_value
play_value-Keeps zero value h v = Leaves-bind (asserted (number_of value)) _ (λ f. leaves v)
play_value-Keeps (suc zero) value h v = leaves v
play_value-Keeps (suc (suc zero)) value h v = Leaves-bind (asserted (string_of value)) _ (λ s.
    Leaves-bind (stream_key h.connect_cmd_obj s) _
      (λ key. leaves (IsValid-with v.protocol v.video v.audio)))
play_value-Keeps (suc (suc (suc i))) value h v = leaves v

publish-Keeps : (world : World) (r : Rest) → Keeps (λ h. handle_publish_command world h r)
unfolding handle_publish_command
publish-Keeps world r h v =
    Leaves-then (for_values world publish_value done 4 0 h r) _
      (Leaves-for_values world _ _ (λ h' i value. publish_value-Keeps i value h') done-Keeps 4 0 h r
        v)
      (λ h1 v1. Leaves-serializing h1 _ [] _ v1 (λ h2 w v2. Leaves-write_out world h2 w v2))

play_reply-Keeps : (world : World) (id : ℕ) → Keeps (λ h. play_reply world h id)
unfolding play_reply
play_reply-Keeps world id h v =
    Leaves-then _ _
      (Leaves-then _ _
        (Leaves-then _ _
          (Leaves-serializing _ _ [] _ (IsValid-with v.protocol v.video v.audio) (λ h2 w2 v2.
            Leaves-serializing h2 _ w2 _ v2 (λ h3 w3 v3.
              Leaves-serializing h3 _ w3 _ v3 (λ h4 w4 v4. Leaves-write_out world h4 w4 v4))))
          (send_alone-Keeps world _))
        (send_alone-Keeps world _))
      (send_alone-Keeps world _)

play-Keeps : (world : World) (r : Rest) (m : Message) → Keeps (λ h. handle_play_command world h r m)
unfolding handle_play_command
play-Keeps world r m h v =
    Leaves-then (for_values world play_value _ _ 0 h r) _
      (Leaves-for_values world _ _ (λ h' i value. play_value-Keeps i value h') (λ h' v'. ends)
        (length r + 1) 0 h r v)
      (play_reply-Keeps world m.stream_id)

status-Keeps :
    (success failure : ℕ) (o : Outcome)
    → Leaves IsValid o
    → Leaves IsValid (with_status success failure o)
unfolding with_status
status-Keeps s f (ok (h, none)) (leaves v) = leaves (IsValid-with v.protocol v.video v.audio)
status-Keeps s f (ok (h, some e)) (leaves v) = leaves (IsValid-with v.protocol v.video v.audio)
status-Keeps s f (err e) errs = errs
status-Keeps s f panic panics = panics
status-Keeps s f stuck ends = ends

no_error-Keeps : (o : Outcome) → Leaves IsValid o → Leaves IsValid (without_error o)
no_error-Keeps (ok (h, e)) (leaves v) = leaves v
no_error-Keeps (err e) errs = errs
no_error-Keeps panic panics = panics
no_error-Keeps stuck ends = ends

source-Keeps : (world : World) → Keeps (become_source world)
unfolding become_source
source-Keeps world h v =
    leaves (IsValid-with (as_source h.app_stream_key v.protocol) v.video v.audio)

sink-Keeps : (world : World) → Keeps (become_sink world)
unfolding become_sink
sink-Keeps world h v = leaves (IsValid-with (as_sink h.app_stream_key v.protocol) v.video v.audio)

run_command-Keeps :
    (world : World) (m : Message) (name : GoString) (r : Rest)
    → Keeps (λ h. run_command world h m name r)
unfolding run_command
run_command-Keeps world m name r h v =
    Leaves-if (same name (ascii "connect"))
      (no_error-Keeps _ (status-Keeps _ _ _ (connect-Keeps world r h v)))
      (Leaves-if (same name (ascii "createStream"))
        (status-Keeps _ _ _ (create_stream-Keeps world r h v))
        (Leaves-if (same name (ascii "publish"))
          (status-Keeps _ _ _ (Leaves-then _ _ (publish-Keeps world r h v) (source-Keeps world)))
          (Leaves-if (same name (ascii "play"))
            (status-Keeps _ _ _ (Leaves-then _ _ (play-Keeps world r m h v) (sink-Keeps world)))
            (leaves v))))

pub command-Keeps : (world : World) (m : Message) → Keeps (λ h. handle_command_message world h m)
unfolding handle_command_message command_named
command-Keeps world m h v =
    Leaves-if (m.message_type == 20)
      (first_value-Keeps (read_value world.amf3_read_value m.payload) _ _
        (λ value r. string-Keeps h (string_of value) _ v (λ s. run_command-Keeps world m s r h v))
        (λ e. leaves v))
      (leaves v)
