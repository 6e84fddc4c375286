-- ===== src/Rtmp/Transfer/Continue.antt =====
-- Receiving the rest of a message whose first chunk has been read: one chunk of type 3 for each piece.
use golive.Common.{ℕ, zero, suc, ◌+◌, ◌-◌, ◌*◌, ◌^◌, ◌<◌, ◌≤◌, ◌≡◌, ◌≢◌, refl, ap, sym, ◌∙◌, arith}
use golive.Common.{true, false, some, Option, List, [], ◌∷◌, ◌++◌, append_assoc, length}
use golive.Common.{length-append}
use golive.Common.Go.{ok, ◌>>=◌}
use golive.Common.Go.Reader.{Reader, bytes}
use golive.Rtmp.Chunk.{ChunkMessageHeader, Chunk, ChunkStream}
use golive.Rtmp.Chunk.{zero_header}
use golive.Rtmp.Chunk.BasicHeader.{basic_header_byte-Reads}
use golive.Rtmp.Chunk.Read.{read_chunk_message_header}
use golive.Common.Go.Map.{update}
use golive.Rtmp.Message.{Message, MessageStream, MessageCollector, handle_receive_chunk}
use golive.Rtmp.Message.Split.{Pieces, last, more}
use golive.Rtmp.Unpacker.{ChunkUnpacker, read_chunk, apply_header, message_loop, deliver}
use golive.Rtmp.Unpacker.{after_chunk, after_collect, check_message}
use golive.Rtmp.Transfer.Chunks.{read_chunk_step, collect_middle, collect_last, piece_size}

-- The pieces of a message after the first, as they travel on chunk stream `csid`.
unfoldable pub type3s : ℕ → List (List ℕ) → List ℕ
type3s csid [] = []
type3s csid (p ∷ ps) = (3 * 64 + csid) ∷ (p ++ type3s csid ps)

pub type3s-cons :
    (csid : ℕ) (p : List ℕ) (ps : List (List ℕ)) (rest : List ℕ)
    → type3s csid (p ∷ ps) ++ rest ≡ (3 * 64 + csid) ∷ (p ++ (type3s csid ps ++ rest))
unfolding type3s
type3s-cons csid p ps rest = simp append_assoc

pub type3s-nil : (csid : ℕ) (rest : List ℕ) → type3s csid [] ++ rest ≡ rest
unfolding type3s
type3s-nil csid rest = refl

-- The unpacker in the middle of a message, `n` bytes before its end.
pub record Mid (u : ChunkUnpacker) (csid : ℕ) (cs : ChunkStream) (ms : MessageStream) (n : ℕ)
    : Type 0 where
  pub stream : u.streams csid ≡ some cs
  pub message : u.message_collector.streams cs.header.message_stream_id ≡ some ms
  pub collecting : ms.is_collecting ≡ true
  pub stream_remain : cs.remain ≡ n
  pub message_remain : ms.remain ≡ n
  pub small : n < 2 ^ 32

-- The unpacker between two messages, as far as the chunk stream `csid` goes, which remembers `hdr`.
pub record Idle (u : ChunkUnpacker) (csid : ℕ) (hdr : ChunkMessageHeader) : Type 0 where
  pub stream : ChunkStream
  pub found : u.streams csid ≡ some stream
  pub header_eq : stream.header ≡ hdr
  pub drained : stream.remain ≡ 0
  pub message : MessageStream
  pub message_found : u.message_collector.streams hdr.message_stream_id ≡ some message
  pub message_idle : message.is_collecting ≡ false
  pub message_empty : message.collected ≡ []

-- What a message on chunk stream `csid` and message stream `id` leaves alone.
pub record Frame (u v : ChunkUnpacker) (csid id : ℕ) : Type 0 where
  pub size : v.chunk_size ≡ u.chunk_size
  pub streams : (j : ℕ) → csid ≢ j → v.streams j ≡ u.streams j
  pub messages : (j : ℕ) → id ≢ j → v.message_collector.streams j ≡ u.message_collector.streams j

pub Frame-trans :
    {u v w : ChunkUnpacker} {csid id : ℕ}
    → Frame u v csid id
    → Frame v w csid id
    → Frame u w csid id
Frame-trans f g = record {
  size = g.size ∙ f.size;
  streams = λ j h. g.streams j h ∙ f.streams j h;
  messages = λ j h. g.messages j h ∙ f.messages j h;
}

-- One round of the loop, given what `ReadChunk` and the collector return.
pub message_round :
    (fuel : ℕ) (u u1 : ChunkUnpacker) (r r' : Reader) (chunk : Chunk) (m : Option Message)
    (c : MessageCollector)
    → read_chunk u r ≡ (ok (chunk, r'), u1)
    → handle_receive_chunk u1.message_collector chunk ≡ ok (m, c)
    → 2 ≤ chunk.basic.chunk_stream_id
    → message_loop (suc fuel) u r
      ≡ deliver
          (message_loop fuel)
          chunk.basic.chunk_stream_id
          r'
          (record u1 { message_collector = c })
          m
unfolding message_loop after_chunk after_collect
message_round fuel u u1 r r' chunk m c p q h = rw (p, q) (ground arith)

-- A type 3 header in the middle of a message: the stream stays, the header gets its message stream.
mid_header :
    (cs : ChunkStream) (csid : ℕ)
    → 0 < cs.remain
    → apply_header cs (record { format = 3; chunk_stream_id = csid }) zero_header
      ≡ (cs, record zero_header { message_stream_id = cs.header.message_stream_id })
unfolding apply_header
mid_header cs csid h = ground arith

module _ (csid : ℕ) (h2 : 2 ≤ csid) (h64 : csid < 64) where
  abbrev next_chunk : ChunkStream → List ℕ → Chunk
  next_chunk cs piece = record {
    basic = record { format = 3; chunk_stream_id = csid };
    header = record zero_header { message_stream_id = cs.header.message_stream_id };
    payload = piece;
  }

  -- `ReadChunk` on a type 3 chunk in the middle of a message.
  mid_chunk :
      (u : ChunkUnpacker) (cs : ChunkStream) (piece rest : List ℕ) (r : Reader)
      → u.streams csid ≡ some cs
      → 0 < cs.remain
      → cs.remain < 2 ^ 32
      → length piece ≡ piece_size cs.remain u.chunk_size
      → bytes r ≡ (3 * 64 + csid) ∷ (piece ++ rest)
      → (r' : Reader) × (read_chunk u r ≡ (
        ok (next_chunk cs piece, r'),
        record u {
          streams = update u.streams csid (record cs { remain = cs.remain - length piece });
        },
      ))
        × (bytes r' ≡ rest)
  mid_chunk u cs piece rest r found pos small len e =
      let (r1, p, q) = basic_header_byte-Reads 3 csid (piece ++ rest) r (omega arith) h2 h64 e in
      read_chunk_step u (record { format = 3; chunk_stream_id = csid }) zero_header
        (record zero_header { message_stream_id = cs.header.message_stream_id }) cs piece rest r r1
        r1 p (unfold read_chunk_message_header in refl) (rw found (mid_header cs csid pos)) len
        small q

  -- The loop returns the message `m`, checked, and what follows it, and the unpacker is between two
  -- messages again.
  abbrev pub Received : ℕ → ChunkUnpacker → Reader → ChunkMessageHeader → Message → List ℕ → Type 0
  Received fuel u r hdr m rest =
      (v : ChunkUnpacker) × (r' : Reader) × (message_loop fuel u r
        ≡ ((check_message csid m >>= λ m'. ok (m', r')), v))
      × (bytes r' ≡ rest)
      × Idle v csid hdr
      × Frame u v csid hdr.message_stream_id

  abbrev message_of : MessageStream → List ℕ → Message
  message_of ms x = record {
    message_type = ms.message_type_id;
    timestamp = ms.timestamp;
    stream_id = ms.message_stream_id;
    payload = ms.collected ++ x;
  }

  pub receive_rest :
      (n : ℕ) (x : List ℕ) {ps : List (List ℕ)} (fuel : ℕ) (u : ChunkUnpacker) (cs : ChunkStream)
      (ms : MessageStream) (rest : List ℕ) (r : Reader)
      → Pieces n x ps
      → u.chunk_size ≡ n
      → Mid u csid cs ms (length x)
      → bytes r ≡ type3s csid ps ++ rest
      → length ps ≤ fuel
      → Received fuel u r cs.header (message_of ms x) rest
  unfolding deliver
  receive_rest n x zero u cs ms rest r (last p pos short) size mid e hf = absurd (omega arith)
  receive_rest n x (suc fuel) u cs ms rest r (last p pos short) size mid e hf =
      let left : length x ≡ piece_size cs.remain u.chunk_size =
        ground (arith, mid.stream_remain, size) in
      let front =
        e
        ∙ type3s-cons csid x [] rest
        ∙ ap (λ l. (3 * 64 + csid) ∷ (x ++ l)) (type3s-nil csid rest) in
      let (r', step, q) =
        mid_chunk u cs x rest r mid.stream (omega (arith, mid.stream_remain))
          (omega (arith, mid.stream_remain, mid.small)) left front in
      let ended =
        collect_last u.message_collector (next_chunk cs x) ms mid.message mid.collecting
          (omega (arith, mid.message_remain, mid.small)) (omega (arith, mid.message_remain)) in
      (
        _,
        r',
        message_round fuel u _ r r' (next_chunk cs x) _ _ step ended h2,
        q,
        record {
          stream = record cs { remain = cs.remain - length x };
          found = ground arith;
          header_eq = refl;
          drained = omega (arith, mid.stream_remain);
          message = record ms {
            format = 3;
            chunk_stream_id = csid;
            collected = [];
            is_collecting = false;
            remain = 0;
          };
          message_found = ground arith;
          message_idle = refl;
          message_empty = refl;
        },
        record { size = refl; streams = λ j h. ground arith; messages = λ j h. ground arith },
      )
  receive_rest n x zero u cs ms rest r (more p q _ e len pos pieces) size mid eb hf =
      absurd (omega arith)
  receive_rest n x (suc fuel) u cs ms rest r (more p q _ {ps = ps} e len pos pieces) size mid eb
        hf =
      let total : length x ≡ length p + length q = ap length e ∙ length-append p q in
      let cut : length p ≡ piece_size cs.remain u.chunk_size =
        ground (arith, mid.stream_remain, size) in
      let front = eb ∙ type3s-cons csid p ps rest in
      let (r1, step, q1) =
        mid_chunk u cs p (type3s csid ps ++ rest) r mid.stream (omega (arith, mid.stream_remain))
          (omega (arith, mid.stream_remain, mid.small)) cut front in
      let collected =
        collect_middle u.message_collector (next_chunk cs p) ms mid.message mid.collecting
          (omega (arith, mid.message_remain, mid.small)) (omega (arith, mid.message_remain)) in
      let cs1 : ChunkStream = record cs { remain = cs.remain - length p } in
      let ms1 : MessageStream = record ms {
        format = 3;
        chunk_stream_id = csid;
        collected = ms.collected ++ p;
        remain = ms.remain - length p;
      } in
      let u1 : ChunkUnpacker = record u {
        streams = update u.streams csid cs1;
        message_collector = record u.message_collector {
          streams = update u.message_collector.streams cs.header.message_stream_id ms1;
        };
      } in
      let mid1 : Mid u1 csid cs1 ms1 (length q) = record {
        stream = ground arith;
        message = ground arith;
        collecting = mid.collecting;
        stream_remain = omega (arith, mid.stream_remain);
        message_remain = omega (arith, mid.message_remain);
        small = omega (arith, mid.small);
      } in
      let same : message_of ms1 q ≡ message_of ms x =
        ap (λ l. record (message_of ms x) { payload = l })
          (append_assoc ms.collected p q ∙ ap (λ l. ms.collected ++ l) (sym e)) in
      let (v, r', run, qr, idle, frame) =
        receive_rest n q fuel u1 cs1 ms1 rest r1 pieces size mid1 q1 (omega arith) in
      (
        v,
        r',
        message_round fuel u _ r r1 (next_chunk cs p) _ _ step collected h2
            ∙ run
            ∙ ap (λ m. ((check_message csid m >>= λ m'. ok (m', r')), v)) same,
        qr,
        idle,
        Frame-trans
            (record { size = refl; streams = λ j h. ground arith; messages = λ j h. ground arith })
            frame,
      )
