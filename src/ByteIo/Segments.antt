-- ===== src/ByteIo/Segments.antt =====
-- The stream readers on a connection that hands its bytes over in arbitrary segments.
use golive.Common.{ℕ, ◌+◌, ◌*◌, ◌≡◌, refl, ap, arith}
use golive.Common.{List, [], ◌∷◌}
use golive.Common.Go.{ok, err, not_enough_data, IsU32}
use golive.Common.Go.Reader.{Reader, bytes, read, read_full, Reads, read_full-prefix}
use golive.ByteIo.Put.{byte_at}
use golive.ByteIo.Stream.{
  read_uint32_le, read_uint8, read_uint24_be, read_uint32_be, read_uint16_be,
}
use golive.ByteIo.RoundTrip.{u32_be-eq, u32_le-eq}

-- One byte is read whatever the segments are.
pub read_uint8-Reads :
    (x : ℕ) (rest : List ℕ) (r : Reader) → bytes r ≡ x ∷ rest → Reads read_uint8 r x rest
unfolding read_uint8 read
read_uint8-Reads x rest [] e = absurd (cc)
read_uint8-Reads x rest ([] ∷ r) e = read_uint8-Reads x rest r e
read_uint8-Reads x rest ((b ∷ s) ∷ r) e = (s ∷ r, ground arith, ground arith)

-- Four bytes of a 32 bit number are read whatever the segments are.
pub read_uint32_be-Reads :
    (v : ℕ) (rest : List ℕ) (r : Reader)
    → IsU32 v
    → bytes r ≡ byte_at 24 v ∷ byte_at 16 v ∷ byte_at 8 v ∷ byte_at 0 v ∷ rest
    → Reads read_uint32_be r v rest
unfolding read_uint32_be
read_uint32_be-Reads v rest r h e =
    let four = byte_at 24 v ∷ byte_at 16 v ∷ byte_at 8 v ∷ byte_at 0 v ∷ [] in
    let (r', p, q) = read_full-prefix four rest r e in
    let value =
      u32_be-eq (byte_at 24 v) (byte_at 16 v) (byte_at 8 v) (byte_at 0 v) [] (omega arith)
        (omega arith) (omega arith) (omega arith) in
    (r', rw (p, value) (ap (λ n. ok (n, r')) (omega arith)), q)

-- A 24 bit number whose bytes lie in one segment is read.
pub read_uint24_be-whole :
    (a b c : ℕ) (s : List ℕ) (r : Reader)
    → read_uint24_be ((a ∷ b ∷ c ∷ s) ∷ r) ≡ ok (a * 65536 + b * 256 + c, s ∷ r)
unfolding read_uint24_be read
read_uint24_be-whole a b c s r = refl

-- `ReadUint32BE` returns a number that is written big-endian at the front of the stream in every
-- segmentation of the stream; `ReadUint24BE` and `ReadUint16BE`, which call `Read` once, refuse
-- a stream that has all the bytes as soon as the first segment holds too few of them.
pub segmentation :
    (v : ℕ) (rest : List ℕ) (r : Reader) (x y : ℕ) (later : Reader)
    → IsU32 v
    → bytes r ≡ byte_at 24 v ∷ byte_at 16 v ∷ byte_at 8 v ∷ byte_at 0 v ∷ rest
    → Reads read_uint32_be r v rest
      × (read_uint24_be ((x ∷ []) ∷ later) ≡ err not_enough_data)
      × (read_uint24_be ((x ∷ y ∷ []) ∷ later) ≡ err not_enough_data)
      × (read_uint16_be ((x ∷ []) ∷ later) ≡ err not_enough_data)
unfolding read_uint24_be read_uint16_be read
segmentation v rest r x y later h e = (read_uint32_be-Reads v rest r h e, refl, refl, refl)

pub read_uint8-whole : (x : ℕ) (s : List ℕ) (r : Reader) → read_uint8 ((x ∷ s) ∷ r) ≡ ok (x, s ∷ r)
unfolding read_uint8 read
read_uint8-whole x s r = refl

-- The last four bytes of a buffer, as a little-endian number.
pub read_uint32_le-whole :
    (v : ℕ)
    → IsU32 v
    → read_uint32_le ((byte_at 0 v ∷ byte_at 8 v ∷ byte_at 16 v ∷ byte_at 24 v ∷ []) ∷ [])
      ≡ ok (v, [] ∷ [])
unfolding read_uint32_le read_full
read_uint32_le-whole v h =
    let value =
      u32_le-eq (byte_at 0 v) (byte_at 8 v) (byte_at 16 v) (byte_at 24 v) [] (omega arith)
        (omega arith) (omega arith) (omega arith) in
    rw value (ap (λ (n : ℕ). ok (n, [] ∷ [])) (omega arith))
