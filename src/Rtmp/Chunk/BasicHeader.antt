-- ===== src/Rtmp/Chunk/BasicHeader.antt =====
-- The basic header: what `serializerChunkBasicHeader` writes, read by `getChunkBasicHeader`.
use golive.Common.{ℕ, ◌+◌, ◌-◌, ◌*◌, ◌%◌, ◌<◌, ◌≤◌, ◌≡◌, ap, ◌∙◌, arith}
use golive.Common.{List, [], ◌∷◌, ◌++◌, bit_or, bit_and}
use native.Mathlib.Decide.{ℕ_discrete}
use golive.Common.Bits.{bit_and_0x3f, bit_or_top2}
use golive.Common.Go.{ok}
use golive.Common.Go.Reader.{Reader, bytes, first_length, Reads}
use golive.ByteIo.Segments.{read_uint8-Reads, read_uint8-whole}
use golive.ByteIo.Stream.{read_uint8}
use golive.Rtmp.Chunk.Read.{chunk_stream_id_after, get_chunk_basic_header}
use golive.Rtmp.Chunk.Write.{serializer_chunk_basic_header}

first_byte :
    (fmt csid : ℕ) → fmt < 4 → csid < 64 → bit_or (fmt * 64 % 256) (csid % 256) ≡ fmt * 64 + csid
first_byte fmt csid hf hc = ground (arith, bit_or_top2 fmt csid)

mask : (fmt csid : ℕ) → fmt < 4 → csid < 64 → bit_and (fmt * 64 + csid) 0x3f ≡ csid
mask fmt csid hf hc = bit_and_0x3f (fmt * 64 + csid) (omega arith) ∙ omega arith

in_first_byte :
    (fmt csid : ℕ) (r : Reader)
    → 2 ≤ csid
    → csid < 64
    → chunk_stream_id_after (fmt * 64 + csid) csid r
      ≡ ok (record { format = fmt; chunk_stream_id = csid }, r)
unfolding chunk_stream_id_after
in_first_byte fmt csid r h2 h64 = ground arith

pub serializer_small :
    (fmt csid : ℕ) (w : List ℕ)
    → fmt < 4
    → csid < 64
    → serializer_chunk_basic_header fmt csid w ≡ w ++ ((fmt * 64 + csid) ∷ [])
unfolding serializer_chunk_basic_header
serializer_small fmt csid w hf hc = ground (arith, first_byte fmt csid)

pub basic_header_byte-Reads :
    (fmt csid : ℕ) (rest : List ℕ) (r : Reader)
    → fmt < 4
    → 2 ≤ csid
    → csid < 64
    → bytes r ≡ (fmt * 64 + csid) ∷ rest
    → Reads get_chunk_basic_header r (record { format = fmt; chunk_stream_id = csid }) rest
unfolding get_chunk_basic_header
basic_header_byte-Reads fmt csid rest r hf h2 h64 e =
    let (r1, p, q) = read_uint8-Reads (fmt * 64 + csid) rest r e in
    (r1, rw (p, mask fmt csid hf h64) (in_first_byte fmt csid r1 h2 h64), q)

pub basic_header-whole :
    (fmt csid : ℕ) (s : List ℕ) (r : Reader)
    → fmt < 4
    → 2 ≤ csid
    → csid < 64
    → get_chunk_basic_header (((fmt * 64 + csid) ∷ s) ∷ r)
      ≡ ok (record { format = fmt; chunk_stream_id = csid }, s ∷ r)
unfolding get_chunk_basic_header
basic_header-whole fmt csid s r hf h2 h64 =
    rw (read_uint8-whole, mask fmt csid hf h64) (in_first_byte fmt csid (s ∷ r) h2 h64)

in_first :
    (fmt csid : ℕ) (rest : List ℕ) (r : Reader)
    → fmt < 4
    → 2 ≤ csid
    → csid < 64
    → bytes r ≡ (fmt * 64 + csid) ∷ rest
    → 4 ≤ first_length r
    → (r1 : Reader) × (get_chunk_basic_header r
        ≡ ok (record { format = fmt; chunk_stream_id = csid }, r1))
      × (bytes r1 ≡ rest)
      × (3 ≤ first_length r1)
unfolding first_length
in_first fmt csid rest [] hf h2 h64 e n = absurd (omega arith)
in_first fmt csid rest ([] ∷ r) hf h2 h64 e n = absurd (omega arith)
in_first fmt csid rest ((b ∷ s) ∷ r) hf h2 h64 e n =
    let front : b ≡ fmt * 64 + csid = cc in
    let back : s ++ bytes r ≡ rest = cc in
    (s ∷ r, rw front (basic_header-whole fmt csid s r hf h2 h64), back, omega arith)

-- Where the first segment matters, in format 2, what is left of it is its length less 1.
pub basic_header-First :
    (fmt csid : ℕ) (rest : List ℕ) (r : Reader)
    → fmt < 4
    → 2 ≤ csid
    → csid < 64
    → bytes r ≡ (fmt * 64 + csid) ∷ rest
    → (fmt ≡ 2 → 4 ≤ first_length r)
    → (r1 : Reader) × (get_chunk_basic_header r
        ≡ ok (record { format = fmt; chunk_stream_id = csid }, r1))
      × (bytes r1 ≡ rest)
      × (fmt ≡ 2 → 3 ≤ first_length r1)
basic_header-First fmt csid rest r hf h2 h64 e first = elim (ℕ_discrete fmt 2) [
  | no n ↦
      let (r1, p, q) = basic_header_byte-Reads fmt csid rest r hf h2 h64 e in
      (r1, p, q, λ two. absurd (n two))
  | yes two ↦
      let (r1, p, q, l) = in_first fmt csid rest r hf h2 h64 e (first two) in (r1, p, q, λ two'. l)
]

-- A stream id from 2 to 63 and a format are read back from the byte that is written for them, in
-- every segmentation of the stream.
pub basic_header-Reads :
    (fmt csid : ℕ) (rest : List ℕ) (r : Reader)
    → fmt < 4
    → 2 ≤ csid
    → csid < 64
    → bytes r ≡ serializer_chunk_basic_header fmt csid [] ++ rest
    → Reads get_chunk_basic_header r (record { format = fmt; chunk_stream_id = csid }) rest
basic_header-Reads fmt csid rest r hf h2 h64 e =
    basic_header_byte-Reads fmt csid rest r hf h2 h64
      (rw (serializer_small fmt csid [] hf h64) at e)

two_byte_form :
    (fmt csid : ℕ)
    → fmt < 4
    → 64 ≤ csid
    → csid < 319
    → serializer_chunk_basic_header fmt csid [] ≡ (fmt * 64) ∷ (csid - 63) ∷ []
unfolding serializer_chunk_basic_header
two_byte_form fmt csid hf h64 h319 = ground arith

after_two_bytes :
    (fmt csid : ℕ) (r1 r2 : Reader)
    → 64 ≤ csid
    → read_uint8 r1 ≡ ok (csid - 63, r2)
    → chunk_stream_id_after (fmt * 64) (fmt * 64 % 64) r1
      ≡ ok (record { format = fmt; chunk_stream_id = csid + 1 }, r2)
unfolding chunk_stream_id_after
after_two_bytes fmt csid r1 r2 h64 p =
    let z : fmt * 64 % 64 ≡ 0 = omega arith in rw (z, p) (ground arith)

-- A stream id from 64 to 318, written in the two byte form, is read back as the next stream id: the
-- writer subtracts 63 where the reader adds 64.
pub basic_header_off_by_one :
    (fmt csid : ℕ) (rest : List ℕ) (r : Reader)
    → fmt < 4
    → 64 ≤ csid
    → csid < 319
    → bytes r ≡ serializer_chunk_basic_header fmt csid [] ++ rest
    → Reads get_chunk_basic_header r (record { format = fmt; chunk_stream_id = csid + 1 }) rest
unfolding get_chunk_basic_header
basic_header_off_by_one fmt csid rest r hf h64 h319 e =
    let written = two_byte_form fmt csid hf h64 h319 in
    let (r1, p, q) =
      read_uint8-Reads (fmt * 64) ((csid - 63) ∷ rest) r (e ∙ ap (λ l. l ++ rest) written) in
    let (r2, p', q') = read_uint8-Reads (csid - 63) rest r1 q in
    (r2, rw (p, bit_and_0x3f (fmt * 64) (omega arith)) (after_two_bytes fmt csid r1 r2 h64 p'), q')
