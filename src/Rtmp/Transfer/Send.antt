-- ===== src/Rtmp/Transfer/Send.antt =====
-- Sending a message: the first chunk in the format that the packer chooses, the others in type 3.
use golive.Common.{ℕ, ◌+◌, ◌-◌, ◌*◌, ◌%◌, ◌^◌, ◌<◌, ◌≡◌, ◌≢◌, ◌⊎◌, refl}
use golive.Common.{arith, ◌∙◌, true, false, some, Option}
use golive.Common.{List, [], ◌∷◌, ◌++◌, append-nil, append_assoc}
use golive.Common.Go.{ok}
use golive.Common.Go.Map.{update, update_self, update_ne}
use golive.Rtmp.Chunk.{ChunkBasicHeader, ChunkMessageHeader, Chunk, ChunkStream, stream_or_new}
use golive.Rtmp.Chunk.{is_known}
use golive.Rtmp.Packer.{ChunkPacker, choose_format, is_proto_ctrl_msg, serialize_as, serialize_one}
use golive.Rtmp.Packer.{serialize_loop}
use golive.Rtmp.Transfer.Wire.{wire_type3}
use golive.Rtmp.Transfer.Continue.{type3s}

-- What the packer remembers after a message: `hdr` for the chunk stream, and the rest as before.
pub record Sent (p q : ChunkPacker) (csid : ℕ) (hdr : ChunkMessageHeader) : Type 0 where
  pub stream : ChunkStream
  pub found : q.send_streams csid ≡ some stream
  pub header_eq : stream.header ≡ hdr
  pub size : q.send_chunk_size ≡ p.send_chunk_size
  pub streams : (j : ℕ) → csid ≢ j → q.send_streams j ≡ p.send_streams j

-- A header that the next chunk repeats: it travels as type 3.
pub record Follows (cs : ChunkStream) (hdr : ChunkMessageHeader) : Type 0 where
  pub stream_id : cs.header.message_stream_id ≡ hdr.message_stream_id
  pub length_eq : cs.header.message_length ≡ hdr.message_length
  pub type_eq : cs.header.message_type_id ≡ hdr.message_type_id
  pub time :
      (cs.header.timestamp ≡ hdr.timestamp)
      ⊎ (cs.header.time_delta ≡ (hdr.timestamp + 2 ^ 32 - cs.header.timestamp) % 2 ^ 32)

pub choose_type3 :
    (cs : ChunkStream) (basic : ChunkBasicHeader) (hdr : ChunkMessageHeader)
    → is_proto_ctrl_msg basic hdr ≡ false
    → Follows cs hdr
    → choose_format true cs basic hdr
      ≡ (3, record cs { basic = record cs.basic { format = 3 } }, hdr)
unfolding choose_format
choose_type3 cs basic hdr plain f = ground (arith, f.stream_id, f.length_eq, f.type_eq, f.time)

module _ (csid : ℕ) (h64 : csid < 64) where
  abbrev basic0 : ChunkBasicHeader
  basic0 = record { format = 0; chunk_stream_id = csid }

  pub serialize_step :
      (p : ChunkPacker) (o : Option ChunkStream) (hdr hdr' : ChunkMessageHeader) (f : ℕ)
      (cs' : ChunkStream) (payload w w' : List ℕ)
      → p.send_streams csid ≡ o
      → choose_format (is_known o) (stream_or_new csid o) basic0 hdr ≡ (f, cs', hdr')
      → serialize_as f (record { basic = basic0; header = hdr'; payload = payload }) w ≡ ok w'
      → serialize_one p basic0 hdr payload w
        ≡ ok (record p { send_streams = update p.send_streams csid cs' }, hdr', w')
  unfolding serialize_one
  serialize_step p o hdr hdr' f cs' payload w w' found chosen written = rw (found, chosen, written)

  pub send_rest :
      (ps : List (List ℕ)) (p : ChunkPacker) (cs : ChunkStream) (hdr : ChunkMessageHeader)
      (w : List ℕ)
      → p.send_streams csid ≡ some cs
      → is_proto_ctrl_msg basic0 hdr ≡ false
      → Follows cs hdr
      → (q : ChunkPacker) × (serialize_loop p basic0 hdr ps w ≡ ok (q, w ++ type3s csid ps))
        × Sent p q csid cs.header
  unfolding serialize_loop type3s
  send_rest [] p cs hdr w found plain follows = (
    p,
    rw append-nil,
    record { stream = cs; found = found; header_eq = refl; size = refl; streams = λ j h. refl },
  )
  send_rest (x ∷ ps) p cs hdr w found plain follows =
      let cs1 : ChunkStream = record cs { basic = record cs.basic { format = 3 } } in
      let p1 : ChunkPacker = record p { send_streams = update p.send_streams csid cs1 } in
      let chunk : Chunk = record { basic = basic0; header = hdr; payload = x } in
      let one =
        serialize_step p (some cs) hdr hdr 3 cs1 x w _ found
          (choose_type3 cs basic0 hdr plain follows) (wire_type3 chunk w h64) in
      let follows1 : Follows cs1 hdr = record {
        stream_id = follows.stream_id;
        length_eq = follows.length_eq;
        type_eq = follows.type_eq;
        time = follows.time;
      } in
      let w1 = w ++ ((3 * 64 + csid) ∷ x) in
      let (q, run, sent) =
        send_rest ps p1 cs1 hdr w1 (update_self p.send_streams csid cs1) plain follows1 in
      (
        q,
        rw (one, run) (simp append_assoc),
        record {
          stream = sent.stream;
          found = sent.found;
          header_eq = sent.header_eq;
          size = sent.size;
          streams = λ j h. sent.streams j h ∙ update_ne p.send_streams csid j cs1 h;
        },
      )
