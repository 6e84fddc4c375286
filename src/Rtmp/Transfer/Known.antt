-- ===== src/Rtmp/Transfer/Known.antt =====
-- The first chunk of a message on a chunk stream that both sides know, with the message stream
-- that it had before: type 1, 2 or 3.
use golive.Common.{ℕ, ◌+◌, ◌-◌, ◌%◌, ◌^◌, ◌≤◌, ◌≡◌, ◌⊎◌, inl, refl}
use golive.Common.{◌∙◌, arith, false, ◌&&◌, ◌||◌, some, length}
use golive.Common.{[], ◌==◌}
use golive.Rtmp.Chunk.{ChunkBasicHeader, ChunkMessageHeader, ChunkStream}
use golive.Rtmp.Chunk.{zero_header}
use golive.Rtmp.Chunk.MessageHeader.{type1_bytes, be24, received_type1}
use golive.Rtmp.Chunk.MessageHeader.{header_type1-Reads, header_type2-First}
use golive.Rtmp.Chunk.Read.{read_chunk_message_header}
use golive.Rtmp.Message.{Message}
use golive.Rtmp.Packer.{ChunkPacker, choose_format, is_proto_ctrl_msg, csid_of}
use golive.Rtmp.Unpacker.{ChunkUnpacker, apply_header, start_message}
use golive.Rtmp.Transfer.Chunks.{Ready}
use golive.Rtmp.Transfer.Send.{Follows, choose_type3}
use golive.Rtmp.Transfer.Whole.{IsValid, Travels, header_of, csid_of_bounds}
use golive.Rtmp.Transfer.Wire.{wire_type1, wire_type2, wire_type3}
use golive.Rtmp.Transfer.Formats.{Agree}

module _ (p : ChunkPacker) (u : ChunkUnpacker) (m : Message) (valid : IsValid m) where
  abbrev csid : ℕ
  csid = csid_of m.message_type

  abbrev basic : ℕ → ChunkBasicHeader
  basic fmt = record { format = fmt; chunk_stream_id = csid }

  module _ (plain : is_proto_ctrl_msg (basic 0) (header_of m) ≡ false) (s g : ChunkStream)
      (knows : p.send_streams csid ≡ some s) (known : u.streams csid ≡ some g) (agree : Agree s g)
      (same_id : s.header.message_stream_id ≡ m.stream_id)
      (later_time : s.header.timestamp ≤ m.timestamp)
      (ready : (fmt : ℕ) → Ready fmt (u.message_collector.streams m.stream_id)) where
    -- `timeDelta`, and the timestamp that the receiver adds up.
    abbrev delta : ℕ
    delta = (m.timestamp + 2 ^ 32 - s.header.timestamp) % 2 ^ 32

    abbrev sum : ℕ
    sum = (delta + g.header.timestamp) % 2 ^ 32

    pub delta-eq : delta ≡ m.timestamp - s.header.timestamp
    delta-eq = omega (arith, valid.short_time)

    pub sum-eq : sum ≡ g.header.timestamp + (m.timestamp - s.header.timestamp)
    sum-eq = omega (arith, valid.short_time, agree.behind)

    abbrev with_delta : ChunkMessageHeader
    with_delta = record (header_of m) { time_delta = delta }

    full : length m.payload % 2 ^ 32 ≡ length m.payload
    full = omega (arith, valid.length_24)

    abbrev sent1 : ChunkStream
    sent1 = record s {
      basic = record s.basic { format = 1 };
      header = record s.header {
        time_delta = delta;
        timestamp = m.timestamp;
        message_length = length m.payload % 2 ^ 32;
        message_type_id = m.message_type;
      };
    }

    abbrev got1 : ChunkStream
    got1 = record g {
      remain = length m.payload % 2 ^ 32;
      header = record g.header {
        message_length = length m.payload % 2 ^ 32;
        message_type_id = m.message_type;
        timestamp = sum;
      };
    }

    abbrev hdr1 : ChunkMessageHeader
    hdr1 = record (received_type1 with_delta) {
      timestamp = sum;
      message_stream_id = g.header.message_stream_id;
    }

    pub Travels-type1 :
        ((s.header.message_length == (length m.payload % 2 ^ 32))
            && (s.header.message_type_id == m.message_type))
          ≡ false
        → Travels p u m 1 (type1_bytes with_delta []) sent1 got1 hdr1
    unfolding choose_format apply_header start_message is_proto_ctrl_msg
    Travels-type1 differs = record {
      format_4 = omega arith;
      header_sent = with_delta;
      chosen = rw knows (rw plain (ground (arith, same_id, differs)));
      plain = plain;
      follows = record { stream_id = same_id; length_eq = refl; type_eq = refl; time = inl refl };
      written = λ x.
          wire_type1 (record { basic = basic 0; header = with_delta; payload = x }) []
            (csid_of_bounds m.message_type).1 (omega (arith, valid.short_time));
      header_read = received_type1 with_delta;
      parsed = λ tail r stream first.
          header_type1-Reads with_delta tail r (omega (arith, delta-eq, valid.short_time))
            (omega (arith, valid.length_24)) stream;
      applied = rw known (rw agree.drained);
      to_come = full;
      length_eq = full;
      type_eq = refl;
      stream_eq = agree.stream_eq ∙ same_id;
      same_stream = refl;
      ready = rw (agree.stream_eq ∙ same_id) (ready 1);
    }

    -- Types 2 and 3 repeat the length and the type of the message before.
    module _ (same_length : s.header.message_length ≡ length m.payload % 2 ^ 32)
        (same_type : s.header.message_type_id ≡ m.message_type) where
      abbrev sent2 : ChunkStream
      sent2 = record s {
        basic = record s.basic { format = 2 };
        header = record s.header { time_delta = delta; timestamp = m.timestamp };
      }

      abbrev got2 : ChunkStream
      got2 = record g {
        remain = g.header.message_length;
        header = record g.header { timestamp = sum };
      }

      abbrev hdr2 : ChunkMessageHeader
      hdr2 = record zero_header {
        timestamp = sum;
        message_length = g.header.message_length;
        message_type_id = g.header.message_type_id;
        message_stream_id = g.header.message_stream_id;
      }

      pub Travels-type2 :
          (s.header.timestamp == m.timestamp || s.header.time_delta == delta) ≡ false
          → Travels p u m 2 (be24 delta []) sent2 got2 hdr2
      unfolding choose_format apply_header start_message is_proto_ctrl_msg
      Travels-type2 differs = record {
        format_4 = omega arith;
        header_sent = with_delta;
        chosen = rw knows (rw plain (ground (arith, same_id, same_length, same_type, differs)));
        plain = plain;
        follows = record {
          stream_id = same_id;
          length_eq = same_length;
          type_eq = same_type;
          time = inl refl;
        };
        written = λ x.
            wire_type2 (record { basic = basic 0; header = with_delta; payload = x }) []
              (csid_of_bounds m.message_type).1 (omega (arith, delta-eq, valid.short_time));
        header_read = record zero_header { timestamp = delta };
        parsed = λ tail r stream first.
            header_type2-First delta tail r (omega (arith, delta-eq, valid.short_time)) stream
              (first refl);
        applied = rw known (rw agree.drained);
        to_come = agree.length_eq ∙ same_length ∙ full;
        length_eq = agree.length_eq ∙ same_length ∙ full;
        type_eq = agree.type_eq ∙ same_type;
        stream_eq = agree.stream_eq ∙ same_id;
        same_stream = refl;
        ready = rw (agree.stream_eq ∙ same_id) (ready 2);
      }

      abbrev sent3 : ChunkStream
      sent3 = record s { basic = record s.basic { format = 3 } }

      abbrev got3 : ChunkStream
      got3 = record g { remain = g.header.message_length }

      abbrev hdr3 : ChunkMessageHeader
      hdr3 = record zero_header {
        timestamp = g.header.timestamp;
        message_length = g.header.message_length;
        message_type_id = g.header.message_type_id;
        message_stream_id = g.header.message_stream_id;
      }

      pub Travels-type3 :
          (s.header.timestamp ≡ m.timestamp) ⊎ (s.header.time_delta ≡ delta)
          → Travels p u m 3 [] sent3 got3 hdr3
      unfolding apply_header start_message read_chunk_message_header
      Travels-type3 time = record {
        format_4 = omega arith;
        header_sent = header_of m;
        chosen = rw knows (choose_type3 s (basic 0) (header_of m) plain follows);
        plain = plain;
        follows = record {
          stream_id = same_id;
          length_eq = same_length;
          type_eq = same_type;
          time = time;
        };
        written = λ x.
            wire_type3 (record { basic = basic 0; header = header_of m; payload = x }) []
              (csid_of_bounds m.message_type).1;
        header_read = zero_header;
        parsed = λ tail r stream first. (r, refl, stream);
        applied = rw known (rw agree.drained);
        to_come = agree.length_eq ∙ same_length ∙ full;
        length_eq = agree.length_eq ∙ same_length ∙ full;
        type_eq = agree.type_eq ∙ same_type;
        stream_eq = agree.stream_eq ∙ same_id;
        same_stream = refl;
        ready = rw (agree.stream_eq ∙ same_id) (ready 3);
      }
        where
          follows : Follows s (header_of m)
          follows = record {
            stream_id = same_id;
            length_eq = same_length;
            type_eq = same_type;
            time = time;
          }
