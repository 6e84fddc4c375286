-- ===== src/Rtmp/Commands.antt =====
-- protocol/rtmp/message.go: the constructors of the messages whose payload is a sequence of AMF0
-- values.
use golive.Common.{ℕ, Option, none, some, List, [], ◌∷◌}
use golive.Common.Go.{Result, ok, ◌>>=◌}
use golive.Common.Go.Float.{ℤ, from_uint, from_int}
use golive.Common.Go.Strings.{GoString, ascii}
use Prim.Native.String.{String}
use golive.Amf.{Value, Fields, Items, number, text, object, array, null, nil, cons}
use golive.Amf.Write.{write_siblings, write_siblings_as_objects}
use golive.Rtmp.Message.{Message}

abbrev pub items : List Value → Items
items [] = nil
items (v ∷ vs) = cons v (items vs)

abbrev pub literal : String → Value
literal s = text (ascii s)

-- An AMF0 command message of timestamp 0.
abbrev pub command : ℕ → List ℕ → Message
command id content = record {
  message_type = 0x14;
  timestamp = 0;
  stream_id = id;
  payload = content;
}

unfoldable pub new_connect_success_message : Result Message
new_connect_success_message =
    let obj1 = array (
      items (
        literal "fmsVer"
        ∷ literal "FMS/3,0,1,123"
        ∷ literal "capabilities"
        ∷ number (from_uint 31)
        ∷ [])) in
    let obj2 = array (
      items (
        literal "level"
        ∷ literal "status"
        ∷ literal "code"
        ∷ literal "NetConnection.Connect.Success"
        ∷ literal "description"
        ∷ literal "Connection succeeded."
        ∷ literal "objectEncoding"
        ∷ number (from_uint 0)
        ∷ [])) in
    let values = literal "_result" ∷ number (from_uint 1) ∷ obj1 ∷ obj2 ∷ [] in
    write_siblings_as_objects (items values) >>= λ content. ok (command 0 content)

unfoldable pub new_create_stream_success_message : ℤ → Result Message
new_create_stream_success_message transaction_id =
    let values =
      literal "_result" ∷ number (from_int transaction_id) ∷ null ∷ number (from_uint 1) ∷ [] in
    write_siblings (items values) >>= λ content. ok (command 0 content)

unfoldable pub new_publish_success_message : Result Message
new_publish_success_message =
    let obj1 = array (
      items (
        literal "description"
        ∷ literal "publishing"
        ∷ literal "level"
        ∷ literal "status"
        ∷ literal "code"
        ∷ literal "NetStream.Publish.Start"
        ∷ [])) in
    let values = literal "onStatus" ∷ number (from_uint 0) ∷ null ∷ obj1 ∷ [] in
    write_siblings_as_objects (items values) >>= λ content. ok (command 0 content)

-- `NewNetStreamOnStatusMessageWithCodeLevelDesc`
unfoldable pub new_on_status_message : ℕ → GoString → GoString → GoString → Result Message
new_on_status_message stream_id code level desc =
    let obj1 = array (
      items (
        literal "code"
        ∷ text code
        ∷ literal "level"
        ∷ text level
        ∷ literal "description"
        ∷ text desc
        ∷ [])) in
    let values = literal "onStatus" ∷ number (from_uint 0) ∷ null ∷ obj1 ∷ [] in
    write_siblings_as_objects (items values) >>= λ content. ok (command stream_id content)

unfoldable pub new_play_reset_message : ℕ → Result Message
new_play_reset_message stream_id =
    new_on_status_message stream_id (ascii "NetStream.Play.Reset") (ascii "status")
      (ascii "Playing and resetting stream.")

unfoldable pub new_play_start_message : ℕ → Result Message
new_play_start_message stream_id =
    new_on_status_message stream_id (ascii "NetStream.Play.Start") (ascii "status")
      (ascii "Started playing stream.")

unfoldable pub new_data_start_message : ℕ → Result Message
new_data_start_message stream_id =
    new_on_status_message stream_id (ascii "NetStream.Data.Start") (ascii "status")
      (ascii "Started playing stream.")

unfoldable pub new_play_publish_notify_message : ℕ → Result Message
new_play_publish_notify_message stream_id =
    new_on_status_message stream_id (ascii "NetStream.Play.PublishNotify") (ascii "status")
      (ascii "Started playing notify.")

-- The commands of a client. A `uint32` transaction id, and the values after it.
abbrev request : ℕ → GoString → ℕ → List Value → Result Message
request id name transaction_id rest =
    let values = text name ∷ number (from_uint transaction_id) ∷ rest in
    write_siblings_as_objects (items values) >>= λ content. ok (command id content)

unfoldable pub new_connect_message : Fields → Result Message
new_connect_message obj = request 0 (ascii "connect") 1 (object obj ∷ [])

unfoldable pub new_release_stream_message : ℕ → GoString → Result Message
new_release_stream_message transaction_id stream_name =
    request 0 (ascii "releaseStream") transaction_id (null ∷ text stream_name ∷ [])

unfoldable pub new_fc_publish_message : ℕ → GoString → Result Message
new_fc_publish_message transaction_id stream_name =
    request 0 (ascii "FCPublish") transaction_id (null ∷ text stream_name ∷ [])

-- A nil map is `none`.
unfoldable pub new_create_stream_message : ℕ → Option Fields → Result Message
new_create_stream_message transaction_id none =
    request 0 (ascii "createStream") transaction_id (null ∷ [])
new_create_stream_message transaction_id (some cmd_obj) =
    request 0 (ascii "createStream") transaction_id (null ∷ object cmd_obj ∷ [])

unfoldable pub new_publish_message : ℕ → GoString → GoString → Result Message
new_publish_message transaction_id app_name stream_name =
    request 0 (ascii "publish") transaction_id (null ∷ text stream_name ∷ text app_name ∷ [])

unfoldable pub new_get_stream_length_message : ℕ → GoString → Result Message
new_get_stream_length_message transaction_id stream_name =
    request 0 (ascii "getStreamLength") transaction_id (null ∷ text stream_name ∷ [])

unfoldable pub new_play_message : ℕ → GoString → ℤ → Result Message
new_play_message transaction_id stream_name num =
    request 1 (ascii "play") transaction_id (null ∷ text stream_name ∷ number (from_int num) ∷ [])
