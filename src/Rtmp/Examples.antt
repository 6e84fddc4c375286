-- ===== src/Rtmp/Examples.antt =====
-- Runs of the chunk stream on concrete messages, and the theorems at concrete inputs.
use golive.Common.{
  sym, ap, ◌∙◌, take, drop, append_assoc, take-append-drop, ℕ, false, ◌≡◌, refl, arith, List, [],
  ◌∷◌, ◌++◌, replicate,
}
use golive.Common.Go.{ok, ◌>>=◌}
use golive.Common.Go.Reader.{Reader, bytes, Reads}
use golive.Rtmp.Chunk.{ChunkMessageHeader}
use golive.Rtmp.Chunk.Read.{get_chunk_basic_header, read_chunk_message_header}
use golive.Rtmp.Chunk.Write.{serializer_chunk_basic_header, serializer_chunk_message_header}
use golive.Rtmp.Chunk.Write.{serializer_chunk_message_header_type1}
use golive.Rtmp.Chunk.BasicHeader.{basic_header-Reads}
use golive.Rtmp.Chunk.MessageHeader.{header_round_trip, received_type0, received_type1}
use golive.Rtmp.Chunk.MessageHeader.{type0_bytes, type1_bytes}
use golive.Rtmp.Message.{Message, split}
use golive.Rtmp.Message.Split.{Pieces, split-Pieces}
use golive.Rtmp.Packer.{new_chunk_packer, write_message, ChunkPacker, csid_of, is_proto_ctrl_msg}
use golive.Rtmp.Unpacker.{new_chunk_unpacker, set_chunk_size}
use golive.Rtmp.Control.{new_set_chunk_size_message, handle_protocol_control_message, field_at}
use golive.Rtmp.Control.{new_ack_message, new_set_peer_bandwidth_message, new_stream_begin}
use golive.Rtmp.Control.{new_stream_is_recorded, new_set_buffer_length_message, control_fields}
use golive.Rtmp.Transfer.Whole.{IsValid, written, Delivered}
use golive.Rtmp.Transfer.Synced.{Synced, Synced-new}
use golive.Rtmp.Transfer.Arrival.{IsPlain, arrival_time}
use golive.Rtmp.Transfer.Deliver.{message_arrives}
use golive.Rtmp.Transfer.Fresh.{format_of-new, first_message_arrives_at_zero}

abbrev audio : Message
audio = record { message_type = 8; timestamp = 40; stream_id = 1; payload = replicate 130 7 }

audio-IsValid : IsValid audio
audio-IsValid = record {
  some_payload = omega arith;
  length_24 = omega arith;
  stream_32 = omega arith;
  short_time = omega arith;
  control_stream = refl;
}

audio-IsPlain : IsPlain audio
unfolding is_proto_ctrl_msg csid_of
audio-IsPlain = refl

-- The bytes of a message, in two segments, and a byte after them.
abbrev audio_bytes : List ℕ
audio_bytes = written new_chunk_packer audio

abbrev cut_stream : Reader
cut_stream = take 3 audio_bytes ∷ drop 3 audio_bytes ∷ (5 ∷ []) ∷ []

cut_stream-bytes : bytes cut_stream ≡ audio_bytes ++ (5 ∷ [])
cut_stream-bytes =
    sym (append_assoc (take 3 audio_bytes) (drop 3 audio_bytes) (5 ∷ []))
    ∙ ap (λ (l : List ℕ). l ++ (5 ∷ [])) (take-append-drop 3 audio_bytes)

message_arrives_example :
    (q : ChunkPacker) × (write_message new_chunk_packer audio ≡ ok (q, audio_bytes))
    × Delivered new_chunk_unpacker audio
        (arrival_time
          (new_chunk_packer.send_streams (csid_of audio.message_type))
          (new_chunk_unpacker.streams (csid_of audio.message_type))
          audio)
        cut_stream
        (5 ∷ [])
        (Synced q)
unfolding new_chunk_packer
message_arrives_example =
    message_arrives new_chunk_packer new_chunk_unpacker audio audio-IsValid audio-IsPlain Synced-new
      (5 ∷ []) cut_stream tt cut_stream-bytes (λ two. absurd (format_of-new audio two))

first_message_arrives_at_zero_example :
    (q : ChunkPacker) × (write_message new_chunk_packer audio ≡ ok (q, audio_bytes))
    × Delivered new_chunk_unpacker audio 0 cut_stream (5 ∷ []) (Synced q)
first_message_arrives_at_zero_example =
    first_message_arrives_at_zero audio (5 ∷ []) cut_stream audio-IsValid audio-IsPlain
      cut_stream-bytes

basic_header-Reads_example :
    Reads get_chunk_basic_header
      ((198 ∷ []) ∷ (9 ∷ []) ∷ [])
      (record { format = 3; chunk_stream_id = 6 })
      (9 ∷ [])
unfolding serializer_chunk_basic_header
basic_header-Reads_example =
    basic_header-Reads 3 6 (9 ∷ []) ((198 ∷ []) ∷ (9 ∷ []) ∷ []) (omega arith) (omega arith)
      (omega arith) refl

abbrev header : ChunkMessageHeader
header = record {
  timestamp = 1000;
  message_length = 130;
  message_type_id = 9;
  timestamp_exted = false;
  time_delta = 40;
  message_stream_id = 1;
}

header_round_trip_example :
    (serializer_chunk_message_header header [] ≡ ok (type0_bytes header []))
    × (serializer_chunk_message_header_type1 header [] ≡ ok (type1_bytes header []))
    × Reads
        (λ r. read_chunk_message_header r 0)
        ((0 ∷ 0 ∷ 40 ∷ 0 ∷ []) ∷ (0 ∷ 130 ∷ 9 ∷ 1 ∷ 0 ∷ 0 ∷ 0 ∷ 7 ∷ []) ∷ [])
        (received_type0 header)
        (7 ∷ [])
    × Reads
        (λ r. read_chunk_message_header r 1)
        ((0 ∷ 0 ∷ 40 ∷ 0 ∷ []) ∷ (0 ∷ 130 ∷ 9 ∷ 7 ∷ []) ∷ [])
        (received_type1 header)
        (7 ∷ [])
header_round_trip_example =
    header_round_trip header (7 ∷ [])
      ((0 ∷ 0 ∷ 40 ∷ 0 ∷ []) ∷ (0 ∷ 130 ∷ 9 ∷ 1 ∷ 0 ∷ 0 ∷ 0 ∷ 7 ∷ []) ∷ [])
      ((0 ∷ 0 ∷ 40 ∷ 0 ∷ []) ∷ (0 ∷ 130 ∷ 9 ∷ 7 ∷ []) ∷ []) (omega arith) (omega arith)
      (omega arith) (omega arith) refl refl

split-Pieces_example :
    (ps : List (List ℕ)) × (split 5 (1 ∷ 2 ∷ 3 ∷ 4 ∷ 5 ∷ []) 2 ≡ ok ps)
    × Pieces 2 (1 ∷ 2 ∷ 3 ∷ 4 ∷ 5 ∷ []) ps
split-Pieces_example =
    split-Pieces 5 2 (1 ∷ 2 ∷ 3 ∷ 4 ∷ 5 ∷ []) (omega arith) (omega arith) (omega arith)

control_fields_example :
    ((new_set_chunk_size_message 1024 >>= handle_protocol_control_message new_chunk_unpacker)
      ≡ ok (set_chunk_size new_chunk_unpacker 1024))
    × (field_at 0 (new_ack_message 1024) ≡ ok 1024)
    × (field_at 0 (new_set_peer_bandwidth_message 1024 2) ≡ ok 1024)
    × (field_at 2 (new_stream_begin 1024) ≡ ok 1024)
    × (field_at 2 (new_stream_is_recorded 1024) ≡ ok 1024)
    × (field_at 2 (new_set_buffer_length_message 1024 2) ≡ ok 1024)
    × (field_at 6 (new_set_buffer_length_message 2 1024) ≡ ok 1024)
control_fields_example = control_fields 1024 (omega arith) new_chunk_unpacker 2
