-- ===== src/Rtmp/Transfer/Formats.antt =====
-- The first chunk of a message in each of the four formats.
use golive.Common.{ℕ, ◌%◌, ◌^◌, ◌<◌, ◌≤◌, ◌≡◌, inl, refl}
use golive.Common.{arith, true, false, not, ◌||◌, length}
use golive.Common.{[], ◌==◌}
use golive.Rtmp.Chunk.{ChunkBasicHeader, ChunkStream, stream_or_new}
use golive.Rtmp.Chunk.{is_known}
use golive.Rtmp.Chunk.MessageHeader.{type0_bytes, received_type0}
use golive.Rtmp.Chunk.MessageHeader.{header_type0-Reads}
use golive.Rtmp.Message.{Message}
use golive.Rtmp.Packer.{ChunkPacker, choose_format, is_proto_ctrl_msg, csid_of}
use golive.Rtmp.Unpacker.{ChunkUnpacker, apply_header, start_message}
use golive.Rtmp.Transfer.Chunks.{Ready}
use golive.Rtmp.Transfer.Whole.{IsValid, Travels, header_of, csid_of_bounds}
use golive.Rtmp.Transfer.Wire.{wire_type0}

-- The sender's memory `s` and the receiver's memory `g` of a chunk stream agree.
pub record Agree (s g : ChunkStream) : Type 0 where
  pub drained : g.remain ≡ 0
  pub length_eq : g.header.message_length ≡ s.header.message_length
  pub type_eq : g.header.message_type_id ≡ s.header.message_type_id
  pub stream_eq : g.header.message_stream_id ≡ s.header.message_stream_id
  pub behind : g.header.timestamp ≤ s.header.timestamp
  pub short_time : s.header.timestamp < 0xffffff

module _ (p : ChunkPacker) (u : ChunkUnpacker) (m : Message) (valid : IsValid m) where
  abbrev csid : ℕ
  csid = csid_of m.message_type

  abbrev basic : ℕ → ChunkBasicHeader
  basic fmt = record { format = fmt; chunk_stream_id = csid }

  module _ (plain : is_proto_ctrl_msg (basic 0) (header_of m) ≡ false) where
    abbrev sent0 : ChunkStream → ChunkStream
    sent0 s = record s { basic = basic 0; header = header_of m }

    abbrev got0 : ChunkStream → ChunkStream
    got0 g = record g {
      basic = basic 0;
      header = received_type0 (header_of m);
      remain = length m.payload % 2 ^ 32;
    }

    -- Type 0, where the packer does not know the stream or knows it with another message stream.
    -- The header carries `timeDelta`, which is 0 here, in place of the timestamp.
    pub Travels-type0 :
        (s g : ChunkStream)
        → stream_or_new csid (p.send_streams csid) ≡ s
        → stream_or_new csid (u.streams csid) ≡ g
        → (not (s.header.message_stream_id == m.stream_id) || not (is_known (p.send_streams csid)))
          ≡ true
        → g.remain ≡ 0
        → Ready 0 (u.message_collector.streams m.stream_id)
        → Travels p u m 0
            (type0_bytes (header_of m) [])
            (sent0 s)
            (got0 g)
            (received_type0 (header_of m))
    unfolding choose_format apply_header start_message
    Travels-type0 s g es eg new drained ready =
        let full : length m.payload % 2 ^ 32 ≡ length m.payload = omega (arith, valid.length_24) in
        record {
          format_4 = omega arith;
          header_sent = header_of m;
          chosen = rw es (rw plain (rw new));
          plain = plain;
          follows = record { stream_id = refl; length_eq = refl; type_eq = refl; time = inl refl };
          written = λ x.
              wire_type0 (record { basic = basic 0; header = header_of m; payload = x }) []
                (csid_of_bounds m.message_type).1 (omega (arith, valid.short_time));
          header_read = received_type0 (header_of m);
          parsed = λ tail r stream first.
              header_type0-Reads (header_of m) tail r (omega arith) (omega (arith, valid.length_24))
                valid.stream_32 stream;
          applied = rw eg (rw drained);
          to_come = full;
          length_eq = full;
          type_eq = refl;
          stream_eq = refl;
          same_stream = refl;
          ready = ready;
        }
