-- ===== src/Rtmp/Transfer/First.antt =====
-- Receiving a whole message: the first chunk, whose headers are known to parse, and the rest.
use golive.Common.{ℕ, zero, suc, ◌+◌, ◌-◌, ◌^◌, ◌<◌, ◌≤◌, ◌≡◌, refl, ap, sym, ◌∙◌, arith}
use golive.Common.{true, false, List, [], ◌∷◌, ◌++◌, append_assoc, length}
use golive.Common.{length-append}
use golive.Common.Go.{ok, ◌>>=◌}
use golive.Common.Go.Reader.{Reader, bytes}
use golive.Rtmp.Chunk.{ChunkMessageHeader, Chunk, ChunkStream, stream_or_new}
use golive.Rtmp.Chunk.Read.{get_chunk_basic_header, read_chunk_message_header}
use golive.Common.Go.Map.{update, update_ne}
use golive.Rtmp.Message.{Message, MessageStream}
use golive.Rtmp.Message.Split.{Pieces, last, more}
use golive.Rtmp.Unpacker.{ChunkUnpacker, apply_header, deliver, check_message}
use golive.Rtmp.Transfer.Chunks.{read_chunk_step, collect_whole, collect_first, piece_size, Ready}
use golive.Rtmp.Transfer.Chunks.{message_stream_or_new, started}
use golive.Rtmp.Transfer.Continue.{type3s, type3s-nil, Mid, Frame-trans}
use golive.Rtmp.Transfer.Continue.{message_round, Received, receive_rest}

-- What follows the header of the first chunk.
abbrev pub body : ℕ → List (List ℕ) → List ℕ
body csid [] = []
body csid (p ∷ ps) = p ++ type3s csid ps

abbrev pub message_with : ChunkMessageHeader → List ℕ → Message
message_with hdr x = record {
  message_type = hdr.message_type_id;
  timestamp = hdr.timestamp;
  stream_id = hdr.message_stream_id;
  payload = x;
}

module _ (csid : ℕ) (h2 : 2 ≤ csid) (h64 : csid < 64) (fmt : ℕ) (u : ChunkUnpacker)
    (hdr hdr' : ChunkMessageHeader) (cs : ChunkStream) (r r1 r2 : Reader)
    (parse_basic : get_chunk_basic_header r
      ≡ ok (record { format = fmt; chunk_stream_id = csid }, r1))
    (parse_header : read_chunk_message_header r1 fmt ≡ ok (hdr, r2))
    (applied : apply_header
        (stream_or_new csid (u.streams csid))
        (record { format = fmt; chunk_stream_id = csid })
        hdr
      ≡ (cs, hdr'))
    (same_stream : cs.header.message_stream_id ≡ hdr'.message_stream_id)
    (ready : Ready fmt (u.message_collector.streams hdr'.message_stream_id)) where
  abbrev chunk : List ℕ → Chunk
  chunk p = record {
    basic = record { format = fmt; chunk_stream_id = csid };
    header = hdr';
    payload = p;
  }

  abbrev id : ℕ
  id = hdr'.message_stream_id

  abbrev old : MessageStream
  old = message_stream_or_new (u.message_collector.streams id)

  receive_only :
      (x rest : List ℕ) (fuel : ℕ)
      → cs.remain ≡ length x
      → hdr'.message_length ≡ length x
      → length x ≤ u.chunk_size
      → length x < 2 ^ 32
      → bytes r2 ≡ x ++ rest
      → Received csid h2 h64 (suc fuel) u r cs.header (message_with hdr' x) rest
  unfolding deliver
  receive_only x rest fuel remain whole fits small e =
      let cut : length x ≡ piece_size cs.remain u.chunk_size = ground arith in
      let (r', step, q) =
        read_chunk_step u _ hdr hdr' cs x rest r r1 r2 parse_basic parse_header applied cut
          (omega arith) e in
      let got = collect_whole u.message_collector (chunk x) _ refl ready whole in
      (
        _,
        r',
        message_round fuel u _ r r' (chunk x) _ _ step got h2,
        q,
        record {
          stream = record cs { remain = cs.remain - length x };
          found = ground arith;
          header_eq = refl;
          drained = omega arith;
          message = record (started old (chunk x)) { collected = []; is_collecting = false };
          message_found = rw same_stream (ground arith);
          message_idle = refl;
          message_empty = refl;
        },
        record {
          size = refl;
          streams = λ j h. ground arith;
          messages = λ j h. update_ne u.message_collector.streams id j _ (λ e. h (same_stream ∙ e));
        },
      )

  receive_many :
      (n : ℕ) (p q x : List ℕ) {ps : List (List ℕ)} (rest : List ℕ) (fuel : ℕ)
      → x ≡ p ++ q
      → length p ≡ n
      → 0 < length q
      → Pieces n q ps
      → u.chunk_size ≡ n
      → cs.remain ≡ length x
      → hdr'.message_length ≡ length x
      → length x < 2 ^ 32
      → bytes r2 ≡ p ++ (type3s csid ps ++ rest)
      → length ps ≤ fuel
      → Received csid h2 h64 (suc fuel) u r cs.header (message_with hdr' x) rest
  unfolding deliver
  receive_many n p q x {ps = ps} rest fuel e len pos pieces size remain whole small eb hf =
      let total : length x ≡ length p + length q = ap length e ∙ length-append p q in
      let cut : length p ≡ piece_size cs.remain u.chunk_size = ground arith in
      let (r', step, qr) =
        read_chunk_step u _ hdr hdr' cs p (type3s csid ps ++ rest) r r1 r2 parse_basic parse_header
          applied cut (omega arith) eb in
      let got =
        collect_first u.message_collector (chunk p) _ refl ready (omega arith) (omega arith) in
      let cs1 : ChunkStream = record cs { remain = cs.remain - length p } in
      let ms1 : MessageStream = record (started old (chunk p)) {
        collected = p;
        is_collecting = true;
        remain = hdr'.message_length - length p;
      } in
      let u1 : ChunkUnpacker = record u {
        streams = update u.streams csid cs1;
        message_collector = record u.message_collector {
          streams = update u.message_collector.streams id ms1;
        };
      } in
      let mid1 : Mid u1 csid cs1 ms1 (length q) = record {
        stream = ground arith;
        message = rw same_stream (ground arith);
        collecting = refl;
        stream_remain = omega arith;
        message_remain = omega arith;
        small = omega arith;
      } in
      let (v, r'', run, qr', idle, frame) =
        receive_rest csid h2 h64 n q fuel u1 cs1 ms1 rest r' pieces size mid1 qr hf in
      (
        v,
        r'',
        message_round fuel u _ r r' (chunk p) _ _ step got h2
            ∙ run
            ∙ ap (λ l. ((check_message csid (message_with hdr' l) >>= λ m'. ok (m', r'')), v))
                (sym e),
        qr',
        idle,
        Frame-trans
            (record {
              size = refl;
              streams = λ j h. ground arith;
              messages =
                  λ j h. update_ne u.message_collector.streams id j _ (λ e'. h (same_stream ∙ e'));
            })
            frame,
      )

  -- A message whose payload `x` comes in the pieces `ps`: its first chunk has the given headers,
  -- the others are of type 3.
  pub receive_message :
      (n : ℕ) (x : List ℕ) {ps : List (List ℕ)} (rest : List ℕ) (fuel : ℕ)
      → Pieces n x ps
      → u.chunk_size ≡ n
      → cs.remain ≡ length x
      → hdr'.message_length ≡ length x
      → length x < 2 ^ 32
      → bytes r2 ≡ body csid ps ++ rest
      → length ps ≤ fuel
      → Received csid h2 h64 fuel u r cs.header (message_with hdr' x) rest
  receive_message n x rest zero (last p pos short) size remain whole small e hf =
      absurd (omega arith)
  receive_message n x rest (suc fuel) (last p pos short) size remain whole small e hf =
      receive_only x rest fuel remain whole (omega arith) small
        (e ∙ append_assoc x _ rest ∙ ap (λ l. x ++ l) (type3s-nil csid rest))
  receive_message n x rest zero (more p q _ eq len pos pieces) size remain whole small e hf =
      absurd (omega arith)
  receive_message n x rest (suc fuel) (more p q _ eq len pos pieces) size remain whole small e hf =
      receive_many n p q x rest fuel eq len pos pieces size remain whole small
        (e ∙ append_assoc p _ rest) (omega arith)
