-- ===== src/Rtmp/Transfer/Whole.antt =====
-- One message from `WriteMessage` to `getRtmpMessage`, given how its first chunk travels.
use golive.Common.{ℕ, ◌+◌, ◌*◌, ◌%◌, ◌^◌, ◌<◌, ◌≤◌, ◌≡◌, refl, ap, ◌∙◌}
use golive.Common.{arith, false, not, ◌&&◌, length, length-append}
use golive.Common.{List, [], ◌∷◌, ◌++◌, append_assoc, ◌==◌, ltb}
use golive.Common.Go.{Result, ok, ◌>>=◌, IsU24, IsU32}
use golive.Common.Go.Map.{update, update_self, update_ne}
use golive.Common.Go.Reader.{Reader, bytes, first_length, Reads}
use golive.Rtmp.Chunk.{ChunkMessageHeader, ChunkStream, stream_or_new}
use golive.Rtmp.Chunk.{is_known}
use golive.Rtmp.Chunk.BasicHeader.{basic_header-First}
use golive.Rtmp.Chunk.Read.{read_chunk_message_header}
use golive.Rtmp.Message.{Message, to_type0_chunk}
use golive.Rtmp.Message.Split.{Pieces, last, more, split-Pieces}
use golive.Rtmp.Packer.{ChunkPacker, choose_format, is_proto_ctrl_msg, serialize_as}
use golive.Rtmp.Packer.{serialize_loop, serializer_chunk, csid_of, message_to_chunk, write_message}
use golive.Rtmp.Unpacker.{ChunkUnpacker, apply_header, check_message, get_rtmp_message}
use golive.Rtmp.Transfer.Chunks.{Ready}
use golive.Rtmp.Transfer.Continue.{type3s, Idle, Frame}
use golive.Rtmp.Transfer.First.{body, message_with, receive_message}
use golive.Rtmp.Transfer.Send.{Sent, Follows, serialize_step, send_rest}

-- Messages that both sides handle: some payload, of at most 24 bits of length, a timestamp that
-- needs no extension, and stream 0 for the protocol control types.
pub record IsValid (m : Message) : Type 0 where
  pub some_payload : 0 < length m.payload
  pub length_24 : IsU24 (length m.payload)
  pub stream_32 : IsU32 m.stream_id
  pub short_time : m.timestamp < 0xffffff
  pub control_stream :
      (ltb 0 m.message_type && ltb m.message_type 7 && not (m.stream_id == 0)) ≡ false

-- The header that all chunks of a message share.
abbrev pub header_of : Message → ChunkMessageHeader
header_of m = record {
  timestamp = m.timestamp;
  message_length = length m.payload % 2 ^ 32;
  message_type_id = m.message_type;
  timestamp_exted = ltb 0xffffff m.timestamp;
  time_delta = 0;
  message_stream_id = m.stream_id;
}

pub csid_of_bounds : (t : ℕ) → (2 ≤ csid_of t) × (csid_of t < 64)
unfolding csid_of
csid_of_bounds t = ground arith

checked :
    (m : Message) (t : ℕ)
    → IsValid m
    → check_message (csid_of m.message_type) (record m { timestamp = t })
      ≡ ok (record m { timestamp = t })
unfolding check_message csid_of
checked m t valid = ground (arith, valid.control_stream)

cut_up :
    (p : ChunkPacker) (m : Message)
    → IsValid m
    → 0 < p.send_chunk_size
    → (ps : List (List ℕ)) × (message_to_chunk p m
        ≡ ok (record {
          basic = record { format = 0; chunk_stream_id = csid_of m.message_type };
          header = header_of m;
          payloads = ps;
        }))
      × Pieces p.send_chunk_size m.payload ps
unfolding message_to_chunk to_type0_chunk
cut_up p m valid pos =
    let (ps, e, pieces) =
      split-Pieces (length m.payload) p.send_chunk_size m.payload pos valid.some_payload
        (omega arith) in
    (ps, rw (valid.control_stream, e), pieces)

-- There are no more pieces than bytes in their chunks.
pieces_le : (csid : ℕ) (ps : List (List ℕ)) → length ps ≤ length (type3s csid ps)
unfolding type3s
pieces_le csid [] = omega arith
pieces_le csid (p ∷ ps) = omega (arith, pieces_le csid ps, length-append p (type3s csid ps))

pieces_le_body : (csid : ℕ) (ps : List (List ℕ)) → length ps ≤ length (body csid ps) + 1
pieces_le_body csid [] = omega arith
pieces_le_body csid (p ∷ ps) = omega (arith, pieces_le csid ps, length-append p (type3s csid ps))

-- How the first chunk of `m` travels from the packer `p` to the unpacker `u`: in format `fmt`, with
-- the header bytes `head`. `sent` and `got` are what the two sides then remember of the stream,
-- and `hdr` is the header that the receiver completes.
pub record Travels (p : ChunkPacker) (u : ChunkUnpacker) (m : Message) (fmt : ℕ) (head : List ℕ)
    (sent got : ChunkStream) (hdr : ChunkMessageHeader) : Type 0 where
  pub format_4 : fmt < 4
  pub header_sent : ChunkMessageHeader
  pub chosen :
      choose_format
        (is_known (p.send_streams (csid_of m.message_type)))
        (stream_or_new (csid_of m.message_type) (p.send_streams (csid_of m.message_type)))
        (record { format = 0; chunk_stream_id = csid_of m.message_type })
        (header_of m)
      ≡ (fmt, sent, header_sent)
  pub plain :
      is_proto_ctrl_msg
        (record { format = 0; chunk_stream_id = csid_of m.message_type })
        header_sent
      ≡ false
  pub follows : Follows sent header_sent
  pub written :
      (x : List ℕ)
      → serialize_as fmt
          (record {
            basic = record { format = 0; chunk_stream_id = csid_of m.message_type };
            header = header_sent;
            payload = x;
          })
          []
        ≡ ok ((fmt * 64 + csid_of m.message_type) ∷ (head ++ x))
  pub header_read : ChunkMessageHeader
  pub parsed :
      (tail : List ℕ) (r : Reader)
      → bytes r ≡ head ++ tail
      → (fmt ≡ 2 → 3 ≤ first_length r)
      → Reads (λ (r' : Reader). read_chunk_message_header r' fmt) r header_read tail
  pub applied :
      apply_header
        (stream_or_new (csid_of m.message_type) (u.streams (csid_of m.message_type)))
        (record { format = fmt; chunk_stream_id = csid_of m.message_type })
        header_read
      ≡ (got, hdr)
  pub to_come : got.remain ≡ length m.payload
  pub length_eq : hdr.message_length ≡ length m.payload
  pub type_eq : hdr.message_type_id ≡ m.message_type
  pub stream_eq : hdr.message_stream_id ≡ m.stream_id
  pub same_stream : got.header.message_stream_id ≡ hdr.message_stream_id
  pub ready : Ready fmt (u.message_collector.streams hdr.message_stream_id)

-- The format in which the packer sends the first chunk of a message.
abbrev pub format_of : ChunkPacker → Message → ℕ
format_of p m =
    (choose_format (is_known (p.send_streams (csid_of m.message_type)))
      (stream_or_new (csid_of m.message_type) (p.send_streams (csid_of m.message_type)))
      (record { format = 0; chunk_stream_id = csid_of m.message_type }) (header_of m)).0

-- The bytes that the packer writes for a message.
abbrev pub written_bytes : Result (ChunkPacker × List ℕ) → List ℕ
written_bytes (ok (q, w)) = w
written_bytes _ = []

abbrev pub written : ChunkPacker → Message → List ℕ
written p m = written_bytes (write_message p m)

-- From the reader `r`, `getRtmpMessage` returns the message with the timestamp `t`, and `extra` is left
-- to read.
abbrev pub Delivered :
    ChunkUnpacker → Message → ℕ → Reader → List ℕ → (ChunkUnpacker → Type 0) → Type 0
Delivered u m t r extra After =
    (v : ChunkUnpacker) × (r' : Reader) × (get_rtmp_message u r
      ≡ (ok (record m { timestamp = t }, r'), v))
    × (bytes r' ≡ extra)
    × After v

-- The message is written, and arrives in every segmentation, but with the first four bytes in one
-- segment where it is sent in format 2.
abbrev pub Arrives :
    ChunkPacker → ChunkUnpacker → Message → ℕ → (ChunkPacker → ChunkUnpacker → Type 0) → Type 0
Arrives p u m t After =
    (q : ChunkPacker) × (w : List ℕ) × (write_message p m ≡ ok (q, w))
    × ((extra : List ℕ) (r : Reader)
        → bytes r ≡ w ++ extra
        → (format_of p m ≡ 2 → 4 ≤ first_length r)
        → Delivered u m t r extra (After q))

module _ (p : ChunkPacker) (u : ChunkUnpacker) (m : Message) (valid : IsValid m)
    (size : u.chunk_size ≡ p.send_chunk_size) (pos : 0 < p.send_chunk_size) (fmt : ℕ)
    (head : List ℕ) (sent got : ChunkStream) (hdr : ChunkMessageHeader)
    (t : Travels p u m fmt head sent got hdr) where
  abbrev csid : ℕ
  csid = csid_of m.message_type

  abbrev wire_of : List (List ℕ) → List ℕ
  wire_of ps = (fmt * 64 + csid) ∷ (head ++ body csid ps)

  sending :
      (ps : List (List ℕ))
      → 0 < length ps
      → (q : ChunkPacker) × (serialize_loop p
            (record { format = 0; chunk_stream_id = csid })
            (header_of m)
            ps
            []
          ≡ ok (q, wire_of ps))
        × Sent p q csid sent.header
  unfolding serialize_loop
  sending [] h = absurd (omega arith)
  sending (x ∷ ps) h =
      let small = (csid_of_bounds m.message_type).1 in
      let p1 : ChunkPacker = record p { send_streams = update p.send_streams csid sent } in
      let one =
        serialize_step csid small p _ (header_of m) t.header_sent fmt sent x [] _ refl t.chosen
          (t.written x) in
      let (q, run, s) =
        send_rest csid small ps p1 sent t.header_sent ((fmt * 64 + csid) ∷ (head ++ x))
          (update_self p.send_streams csid sent) t.plain t.follows in
      (
        q,
        rw (one, run) (simp append_assoc),
        record {
          stream = s.stream;
          found = s.found;
          header_eq = s.header_eq;
          size = s.size;
          streams = λ j h. s.streams j h ∙ update_ne p.send_streams csid j sent h;
        },
      )

  Pieces-pos : {n : ℕ} {x : List ℕ} {ps : List (List ℕ)} → Pieces n x ps → 0 < length ps
  Pieces-pos (last q a b) = omega arith
  Pieces-pos (more q y x a b c d) = omega arith

  receiving :
      (ps : List (List ℕ)) (extra : List ℕ) (r : Reader)
      → bytes r ≡ wire_of ps ++ extra
      → (fmt ≡ 2 → 4 ≤ first_length r)
      → Pieces p.send_chunk_size m.payload ps
      → (v : ChunkUnpacker) × (r' : Reader) × (get_rtmp_message u r
          ≡ (ok (record m { timestamp = hdr.timestamp }, r'), v))
        × (bytes r' ≡ extra)
        × Idle v csid got.header
        × Frame u v csid got.header.message_stream_id
  unfolding get_rtmp_message
  receiving ps extra r stream first pieces =
      let (lo, hi) = csid_of_bounds m.message_type in
      let (r1, basic, left1, first1) =
        basic_header-First fmt csid (head ++ body csid ps ++ extra) r t.format_4 lo hi stream
          first in
      let (r2, header, left) =
        t.parsed (body csid ps ++ extra) r1 (left1 ∙ append_assoc head (body csid ps) extra)
          first1 in
      let same : message_with hdr m.payload ≡ record m { timestamp = hdr.timestamp } =
        ground (arith, t.type_eq, t.stream_eq) in
      let enough : length ps ≤ length (bytes r) + 1 = omega (
        arith,
        pieces_le_body csid ps,
        ap (λ (l : List ℕ). length l) stream,
        length-append (head ++ body csid ps) extra,
        length-append head (body csid ps),
      ) in
      let (v, r', run, rest, idle, frame) =
        receive_message csid lo hi fmt u t.header_read hdr got r r1 r2 basic header t.applied
          t.same_stream t.ready p.send_chunk_size m.payload extra _ pieces size t.to_come
          t.length_eq (omega (arith, valid.length_24)) left enough in
      (
        v,
        r',
        run
            ∙ ap (λ m'. ((check_message csid m' >>= λ m''. ok (m'', r')), v)) same
            ∙ ap (λ e. ((e >>= λ m''. ok (m'', r')), v)) (checked m hdr.timestamp valid),
        rest,
        idle,
        frame,
      )

  -- The message arrives, whatever follows it, and both sides remember the same of its stream.
  pub arrives : Arrives p u m hdr.timestamp (λ q v.
      Sent p q csid sent.header
      × Idle v csid got.header
      × Frame u v csid got.header.message_stream_id)
  unfolding write_message serializer_chunk
  arrives =
      let (ps, cut, pieces) = cut_up p m valid pos in
      let (q, run, s) = sending ps (Pieces-pos pieces) in
      (
        q,
        wire_of ps,
        rw (cut, run),
        λ extra r stream first.
            let format : format_of p m ≡ fmt =
              ap (λ (c : ℕ × ChunkStream × ChunkMessageHeader). c.0) t.chosen in
            let (v, r', got', rest, idle, frame) =
              receiving ps extra r stream (λ two. first (format ∙ two)) pieces in
            (v, r', got', rest, (s, idle, frame)),
      )
