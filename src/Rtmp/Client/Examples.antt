-- ===== src/Rtmp/Client/Examples.antt =====
-- Tests and witnesses for the client (protocol/rtmp/clientHandler.go).
use golive.Common.{
  arith, ap, length, ℕ, suc, ◌+◌, ◌<◌, ◌≡◌, refl, true, false, Option, none, some, List, [], ◌∷◌,
  ◌++◌, ◌⊎◌, inl, inr,
}
use golive.Common.Go.{Result, Error, ok, err, panic, stuck, ◌>>=◌, eof}
use golive.Common.Go.Float.{pos, from_uint}
use golive.Common.Go.Strings.{GoString, ascii}
use golive.Amf.{Value, Fields, text, object, field, end}
use golive.Amf.Write.{write_value, write_string, write_double}
use golive.Rtmp.Outcome.{done, ◌>>>◌, Leaves}
use golive.Rtmp.Message.{Message}
use golive.Rtmp.Packer.{new_chunk_packer}
use golive.Rtmp.Unpacker.{new_chunk_unpacker}
use golive.Rtmp.Status.{init, connect_send, publish_success}
use golive.Rtmp.Commands.{
  new_connect_success_message, new_create_stream_success_message, new_publish_success_message,
}
use golive.Rtmp.Client.{RtmpUrl, ClientRole, play, publish, RtmpClientHandler, Outcome}
use golive.Rtmp.Client.Response.{Outside}
use golive.Rtmp.Client.Request.{parse_rtmp_url}
use golive.Rtmp.Client.Handle.{handle_receive_message, start_client}
use golive.Rtmp.Client.Diagram.{At, Way}
use golive.Rtmp.Client.Follows.{handle_receive_message-Follows}
use golive.Rtmp.Client.Start.{start_client-Follows}
use golive.Rtmp.Client.Publishes.{answers-Publish}

-- No AMF3 value is met, and no conversion out of range.
abbrev outside : Outside
outside = record { amf3_read_value = λ r. err eof; beyond = λ f. pos 0; beyond_uint32 = λ f. 0 }

abbrev takes : List ℕ → Option Error
takes w = none

abbrev url : RtmpUrl
url = record {
  app_name = ascii "live";
  stream_name = ascii "test";
  tcurl = ascii "rtmp://host/live";
  origin_url = ascii "rtmp://host/live/test";
}

-- The URL of a stream.
url_parses : parse_rtmp_url (ascii "rtmp://host/live/test") ≡ ok url
unfolding parse_rtmp_url golive.Common.Go.Strings.has_prefix golive.Rtmp.Client.Request.split_parts
    golive.Rtmp.Client.Request.join_parts golive.Rtmp.Client.Request.url_of_parts ascii
url_parses = refl

abbrev client : ClientRole → ℕ → RtmpClientHandler
client role status = record {
  chunk_unpacker = new_chunk_unpacker;
  chunk_packer = new_chunk_packer;
  rtmp_url = url;
  status = status;
  transaction_id = 1;
  functional_stream_id = 0;
  player = false;
  role = role;
  written = [];
  played = [];
}

handle_receive_message-Follows_example : Leaves (At play connect_send) (
    handle_receive_message outside takes
      (client play connect_send)
      (record { message_type = 20; timestamp = 0; stream_id = 0; payload = [] }))
handle_receive_message-Follows_example =
    handle_receive_message-Follows outside takes (client play connect_send)
      (record { message_type = 20; timestamp = 0; stream_id = 0; payload = [] })

start_client-Follows_example :
    Leaves
      (λ h'. (h'.role ≡ play) × ((h'.status ≡ init) ⊎ Way play connect_send h'.status))
      (start_client outside takes 3 (client play init) ((4 ∷ 5 ∷ []) ∷ []))
start_client-Follows_example =
    start_client-Follows outside takes 3 (client play init) ((4 ∷ 5 ∷ []) ∷ [])

abbrev message_of : Result Message → Message
message_of (ok m) = m
message_of _ = record { message_type = 0; timestamp = 0; stream_id = 0; payload = [] }

answers-Publish_example :
    (h' : RtmpClientHandler) × ((handle_receive_message outside takes
          (client publish connect_send)
          (message_of new_connect_success_message)
        >>> (λ h1.
            handle_receive_message outside takes h1
              (message_of (new_create_stream_success_message (pos 4))))
        >>> (λ h2.
            handle_receive_message outside takes h2 (message_of new_publish_success_message)))
      ≡ done h')
    × (h'.status ≡ publish_success)
    × (h'.functional_stream_id ≡ 1)
unfolding new_connect_success_message new_create_stream_success_message new_publish_success_message
    golive.Amf.Write.write_siblings golive.Amf.Write.write_siblings_as_objects
    golive.Amf.Write.write_element_as_object golive.Amf.Write.write_pairs write_value
answers-Publish_example =
    answers-Publish outside takes (λ w. refl) (client publish connect_send) 4
      (message_of new_connect_success_message)
      (message_of (new_create_stream_success_message (pos 4)))
      (message_of new_publish_success_message) refl refl (omega arith) refl refl refl

-- A server that refuses to connect.
abbrev refusal : Fields
refusal = field (ascii "code") (text (ascii "NetConnection.Connect.Rejected")) end

abbrev bytes_of : Result (List ℕ) → List ℕ
bytes_of (ok w) = w
bytes_of _ = []

abbrev refusing : Message
refusing = record {
  message_type = 20;
  timestamp = 0;
  stream_id = 0;
  payload =
      write_string (ascii "_result")
      ++ (write_double (from_uint 1) ++ bytes_of (write_value (object refusal)));
}
