-- ===== src/Rtmp/Server/Examples.antt =====
-- The theorems on the server's handler at concrete messages.
use golive.Common.{ℕ, ◌≡◌, refl, arith, Option, none, some, List, [], ◌∷◌, ◌++◌}
use golive.Common.Go.{Result, Error, ok, err, unsupported_type, eof, ◌>>=◌, panic}
use golive.Common.Go.Float.{pos, from_uint}
use golive.Common.Go.Strings.{ascii}
use golive.Common.Go.Reader.{Reader}
use golive.Flv.{ex_data_of, protocol_flvlive}
use golive.Amf.{Value, text, field, end}
use golive.Rtmp.Message.{Message}
use golive.Rtmp.Status.{connect_success, connect_fail, publish_fail}
use golive.Rtmp.Server.{
  RtmpHandler, World, Outcome, new_rtmp_handler, done, fail, source_determined, destroy_source,
}
use golive.Rtmp.Server.Command.{handle_connect_command, handle_publish_command, run_command}
use golive.Rtmp.Server.Media.{classify}
use golive.Rtmp.Server.Serve.{started, stop_handler}
use golive.Rtmp.Server.Valid.{Leaves}
use golive.Rtmp.Server.Start.{start_server, Ended, start_server-Ended}
use golive.Rtmp.Server.Classify.{tag_of, message_of, avc, classify-ex_data_of}
use golive.Rtmp.Server.Reply.{create_stream-Echoes}
use golive.Rtmp.Server.Ends.{Ends, create_stream_loop-Ends}
use golive.Rtmp.Server.Command.{create_stream_loop}
use golive.Amf.Total.{fails}
use golive.Common.{length, replicate, ◌+◌}
use golive.Rtmp.Commands.{new_create_stream_message, new_create_stream_success_message}
use golive.Rtmp.Server.{serializing, write_out}
use golive.Rtmp.Server.Media.{for_values}
use golive.Rtmp.Server.Command.{handle_command_message, with_status}
use golive.Rtmp.Status.{crtstrm_success, crtstrm_fail}
use golive.Amf.Read.{read_value, read_value_loop, read_byte, read_marked, read_simple}
use golive.Rtmp.Server.Errors.{after_failed_connect, refused_publisher}

-- A world in which no write succeeds, and the pad refuses every source.
abbrev broken : World
broken = record {
  on_source_determined = λ before key. some unsupported_type;
  on_sink_determined = λ before key. none;
  on_put = λ before d. none;
  on_write = λ w. some eof;
  amf3_read_value = λ r. err unsupported_type;
  beyond = λ f. pos 0;
}

abbrev outcome_handler : Outcome → RtmpHandler
outcome_handler (ok (h, e)) = h
outcome_handler _ = new_rtmp_handler

-- A world in which the pad refuses every source.
abbrev refusing : World
refusing = record broken { on_write = λ w. none }

abbrev silent : Reader
silent = []

abbrev any_message : Message
any_message = message_of 20 0 []

-- The version is 3, that of the block 0, and no message follows the client's echo.
start_server-Ended_example :
    Leaves Ended
      (start_server refusing (λ k d. replicate 32 0) (λ i. 7) 3 3 (replicate 3072 0 ∷ silent))
start_server-Ended_example =
    start_server-Ended refusing (λ k d. replicate 32 0) (λ i. 7) 3 3 (replicate 3072 0 ∷ silent)

classify-ex_data_of_example : ex_data_of (tag_of 9 7 (0x17 ∷ 1 ∷ 5 ∷ [])) ≡ (
    classify (message_of 9 7 (0x17 ∷ 1 ∷ 5 ∷ [])) >>= λ d.
    ok (record d { origin_protocol = protocol_flvlive }))
classify-ex_data_of_example =
    classify-ex_data_of 9 7 (0x17 ∷ 1 ∷ 5 ∷ [])
      (avc 0x17 1 (5 ∷ []) (omega arith) (omega arith) (omega arith))

-- A connect command with a value of the type that AMF0 calls a reference.
after_failed_connect_example :
    (h2 : RtmpHandler) × (run_command broken started any_message (ascii "connect") (7 ∷ [])
      ≡ done h2)
    × (h2.status ≡ connect_fail)
    × (run_command broken h2 any_message (ascii "connect") [] ≡ panic)
    × (run_command broken h2 any_message (ascii "createStream") [] ≡ panic)
unfolding handle_connect_command for_values read_value read_value_loop read_byte read_marked
    read_simple started
after_failed_connect_example =
    after_failed_connect broken started any_message (7 ∷ []) any_message [] started unsupported_type
      refl

-- The handler after the answer to a publish command without values.
abbrev publisher : RtmpHandler
publisher = outcome_handler (handle_publish_command refusing started [])

publisher_answers : handle_publish_command refusing started [] ≡ ok (publisher, none)
unfolding started handle_publish_command for_values read_value read_value_loop read_byte serializing
    write_out golive.Rtmp.Server.serialize golive.Rtmp.Commands.new_publish_success_message
    golive.Amf.Write.write_siblings_as_objects golive.Amf.Write.write_element_as_object
    golive.Amf.Write.write_value golive.Amf.Write.write_pairs golive.Rtmp.Packer.message_to_chunk
    golive.Rtmp.Message.to_type0_chunk golive.Amf.Write.write_string ascii
    golive.Amf.Write.write_utf8 golive.Amf.Write.write_double golive.Amf.Write.write_null
    golive.Amf.Write.write_object_end_marker golive.Amf.Write.write_object_marker
    golive.Amf.Write.write_object_name golive.ByteIo.Put.put_u24_be golive.ByteIo.Put.put_u32_be
    golive.ByteIo.Put.put_u32_le golive.ByteIo.Put.write_u24_be golive.ByteIo.Put.write_u32_be
    golive.ByteIo.Put.write_u32_le golive.Common.Go.Float.from_uint
    golive.Rtmp.Chunk.Write.serializer_chunk_basic_header
    golive.Rtmp.Chunk.Write.serializer_chunk_message_header
    golive.Rtmp.Chunk.Write.serializer_chunk_message_header_no_stream_id
    golive.Rtmp.Chunk.Write.serializer_chunk_message_header_type1
    golive.Rtmp.Chunk.Write.serializer_chunk_delta_time golive.Rtmp.Chunk.Write.serializer_type0
    golive.Rtmp.Chunk.Write.serializer_type1 golive.Rtmp.Chunk.Write.serializer_type2
    golive.Rtmp.Chunk.Write.serializer_type3 golive.Rtmp.Message.split
    golive.Rtmp.Packer.choose_format golive.Rtmp.Packer.csid_of golive.Rtmp.Packer.is_proto_ctrl_msg
    golive.Rtmp.Packer.serialize_as golive.Rtmp.Packer.serialize_loop
    golive.Rtmp.Packer.serialize_one golive.Rtmp.Packer.serializer_chunk new_rtmp_handler
    golive.Rtmp.Packer.new_chunk_packer
publisher_answers = refl

refused_publisher_example :
    (h2 : RtmpHandler) × (run_command refusing started any_message (ascii "publish") []
      ≡ fail h2 unsupported_type)
    × (h2.status ≡ publish_fail)
    × ((stop_handler h2).calls
        ≡ publisher.calls
          ++ (source_determined publisher.app_stream_key
              ∷ destroy_source publisher.app_stream_key
              ∷ []))
refused_publisher_example =
    refused_publisher refusing started any_message [] publisher unsupported_type publisher_answers
      refl

-- A handler that has answered a connect command.
abbrev connected_handler : RtmpHandler
connected_handler = record new_rtmp_handler { status = connect_success }

create_stream-Echoes_example :
    (m : Message) × (new_create_stream_message 4 none ≡ ok m)
    × (handle_command_message refusing connected_handler m
        ≡ with_status crtstrm_success crtstrm_fail (
            serializing connected_handler
              (new_create_stream_success_message (pos 4))
              []
              (write_out refusing)))
create_stream-Echoes_example = create_stream-Echoes refusing connected_handler 4 (omega arith) refl

abbrev nulls : List ℕ
nulls = 5 ∷ 5 ∷ []

create_stream_loop-Ends_example :
    Ends (create_stream_loop refusing (length nulls + 1) (pos 0) nulls)
create_stream_loop-Ends_example =
    create_stream_loop-Ends refusing (λ r. fails unsupported_type) nulls
