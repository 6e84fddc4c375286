-- ===== src/Rtmp/Written.antt =====
-- protocol/rtmp/pack.go: `WriteMessage` writes every message that is no control message of a stream.
use golive.Common.{
  arith, ℕ, ◌<◌, ◌≡◌, refl, sym, ap, ◌∙◌, Bool, true, false, not, ◌&&◌, ltb, ◌==◌, List, [], ◌∷◌,
  length, if◌then◌else◌,
}
use golive.Common.Go.{Result, ok, err, panic, stuck, ◌>>=◌}
use mathlib.Core.Path.{transport}
use golive.ByteIo.Put.{write_u24_be, write_u32_be, write_u32_le, put_u24_be, put_u32_be, put_u32_le}
use golive.Rtmp.Chunk.{ChunkBasicHeader, ChunkMessageHeader, Chunk}
use golive.Rtmp.Chunk.Write.{serializer_type0, serializer_type1, serializer_type2, serializer_type3}
use golive.Rtmp.Chunk.Write.{
  serializer_chunk_message_header, serializer_chunk_message_header_type1,
  serializer_chunk_message_header_no_stream_id, serializer_chunk_delta_time,
}
use golive.Rtmp.Message.{Message, to_type0_chunk, split}
use golive.Rtmp.Message.Split.{split-Pieces}
use golive.Rtmp.Packer.{
  ChunkPacker, serialize_as, serialize_one, serialize_loop, serializer_chunk, message_to_chunk,
  write_message,
}

-- The result is no error.
pub data Gives {A : Type 0} (P : A → Type 0) : Result A → Type 0 where
  gives : {a : A} → P a → Gives P (ok a)

pub Gives-bind :
    {A B : Type 0} {P : A → Type 0} {Q : B → Type 0} (x : Result A) (f : A → Result B)
    → Gives P x
    → ((a : A) → P a → Gives Q (f a))
    → Gives Q (x >>= f)
Gives-bind (ok a) f (gives p) g = g a p
Gives-bind (err e) f v g = elim v [ ]
Gives-bind panic f v g = elim v [ ]
Gives-bind stuck f v g = elim v [ ]

pub Gives-map :
    {A : Type 0} {P Q : A → Type 0} (x : Result A) → ((a : A) → P a → Q a) → Gives P x → Gives Q x
Gives-map (ok a) g (gives p) = gives (g a p)
Gives-map (err e) g v = elim v [ ]
Gives-map panic g v = elim v [ ]
Gives-map stuck g v = elim v [ ]

pub Gives-ok : {A : Type 0} {P : A → Type 0} (a : A) → Gives P (ok a) → P a
Gives-ok a (gives p) = p

abbrev Any : {A : Type 0} → A → Type 0
Any a = Unit {0}

Gives-if :
    {A : Type 0} {P : A → Type 0} (b : Bool) {x y : Result A}
    → Gives P x
    → Gives P y
    → Gives P (if b then x else y)
Gives-if true p q = p
Gives-if false p q = q

u24-Gives : (w : List ℕ) (v : ℕ) → Gives Any (write_u24_be w v)
unfolding write_u24_be put_u24_be
u24-Gives w v = gives tt

u32-Gives : (w : List ℕ) (v : ℕ) → Gives Any (write_u32_be w v)
unfolding write_u32_be put_u32_be
u32-Gives w v = gives tt

u32_le-Gives : (w : List ℕ) (v : ℕ) → Gives Any (write_u32_le w v)
unfolding write_u32_le put_u32_le
u32_le-Gives w v = gives tt

header-Gives :
    (h : ChunkMessageHeader) (w : List ℕ)
    → Gives Any (serializer_chunk_message_header_no_stream_id h w)
unfolding serializer_chunk_message_header_no_stream_id
header-Gives h w =
    Gives-bind (write_u24_be w h.time_delta) _ (u24-Gives w _)
      (λ w1 p. Gives-bind (write_u24_be w1 h.message_length) _ (u24-Gives w1 _) (λ w2 q. gives tt))

type0-Gives : (c : Chunk) (w : List ℕ) → Gives Any (serializer_type0 c w)
unfolding serializer_type0 serializer_chunk_message_header
type0-Gives c w =
    Gives-bind {P = Any} _ _
      (Gives-bind {P = Any} _ _ (header-Gives c.header _) (λ w1 p.
        Gives-bind {P = Any} _ _ (u32_le-Gives w1 _)
          (λ w2 q. Gives-if _ (u32-Gives w2 _) (gives tt))))
      (λ w3 p. gives tt)

type1-Gives : (c : Chunk) (w : List ℕ) → Gives Any (serializer_type1 c w)
unfolding serializer_type1 serializer_chunk_message_header_type1
type1-Gives c w =
    Gives-bind {P = Any} _ _
      (Gives-bind {P = Any} _ _ (header-Gives c.header _)
        (λ w1 p. Gives-if _ (u32-Gives w1 _) (gives tt)))
      (λ w3 p. gives tt)

type2-Gives : (c : Chunk) (w : List ℕ) (d : ℕ) → Gives Any (serializer_type2 c w d)
unfolding serializer_type2 serializer_chunk_delta_time
type2-Gives c w d =
    Gives-bind {P = Any} _ _ (Gives-if _ (u24-Gives _ d) (u32-Gives _ d)) (λ w1 p. gives tt)

serialize_as-Gives : (f : ℕ) (c : Chunk) (w : List ℕ) → Gives Any (serialize_as f c w)
unfolding serialize_as serializer_type3
serialize_as-Gives f c w =
    Gives-if (f == 0) (type0-Gives c w)
      (Gives-if (f == 1) (type1-Gives c w) (Gives-if (f == 2) (type2-Gives c w _) (gives tt)))

-- The packer that is left has the same chunk size.
abbrev pub Resized : ChunkPacker → ChunkPacker × List ℕ → Type 0
Resized p (q, w) = q.send_chunk_size ≡ p.send_chunk_size

serialize_loop-Gives :
    (p : ChunkPacker) (basic : ChunkBasicHeader) (hdr : ChunkMessageHeader) (ps : List (List ℕ))
    (w : List ℕ)
    → Gives (Resized p) (serialize_loop p basic hdr ps w)
unfolding serialize_loop serialize_one
serialize_loop-Gives p basic hdr [] w = gives refl
serialize_loop-Gives p basic hdr (x ∷ ps) w =
    Gives-bind {P = λ (q, hdr', w'). q.send_chunk_size ≡ p.send_chunk_size} _ _ one
      (λ (q, hdr', w') same.
        Gives-map _ (λ r e. e ∙ same) (serialize_loop-Gives q basic hdr' ps w'))
  where
    one :
        Gives
          (λ (t : ChunkPacker × ChunkMessageHeader × List ℕ).
            t.0.send_chunk_size ≡ p.send_chunk_size)
          (serialize_one p basic hdr x w)
    one = Gives-bind {P = Any} _ _ (serialize_as-Gives _ _ w) (λ w' u. gives refl)

split-Gives : (n : ℕ) (x : List ℕ) → 0 < n → Gives Any (split (length x) x n)
unfolding split
split-Gives n [] size = gives tt
split-Gives n (b ∷ x) size =
    let (ps, e, pieces) =
      split-Pieces (length (b ∷ x)) n (b ∷ x) size (omega arith) (omega arith) in
    transport (ap (Gives Any) (sym e)) (gives tt)

-- A message that is no control message, or is one of stream 0, is written whatever it holds, if the
-- chunk size is not 0. The chunk size stays.
pub write_message-Gives :
    (p : ChunkPacker) (m : Message)
    → (ltb 0 m.message_type && ltb m.message_type 7 && not (m.stream_id == 0)) ≡ false
    → 0 < p.send_chunk_size
    → Gives (Resized p) (write_message p m)
unfolding write_message message_to_chunk serializer_chunk to_type0_chunk
write_message-Gives p m plain size = rw plain (
    Gives-bind {P = Any} _ _
      (Gives-bind {P = Any} _ _ (split-Gives p.send_chunk_size m.payload size) (λ ps u. gives tt))
      (λ chunks u. serialize_loop-Gives p chunks.basic chunks.header chunks.payloads []))
