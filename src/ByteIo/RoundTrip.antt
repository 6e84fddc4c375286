-- ===== src/ByteIo/RoundTrip.antt =====
-- What `PutX` and `WriteX` write, `XBE` and `ReadX` read back.
use golive.Common.{ℕ, ◌+◌, ◌*◌, ◌/◌, ◌%◌, ◌^◌, ◌<◌, ◌≡◌, ap, ◌∙◌, arith, List, ◌∷◌}
use golive.Common.Bits.{bit_or-byte}
use golive.Common.Go.{ok, IsByte, ◌>>=◌}
use golive.ByteIo.Get.{shift_in, u16_be, u24_be, u32_be, u32_le, u40_be, u64_be}
use golive.ByteIo.Put.{put_u16_be, put_u24_be, put_u32_be, put_u32_le, put_u40_be}
use golive.ByteIo.Put.{put_u64_be}

-- A shift that loses no bit is a multiplication, and the `|` then an addition.
pub shift_in_16 : (i b : ℕ) → i < 2 ^ 8 → IsByte b → shift_in 16 i b ≡ i * 256 + b
unfolding shift_in
shift_in_16 i b h hb = ground (arith, bit_or-byte i b)

pub shift_in_32 : (i b : ℕ) → i < 2 ^ 24 → IsByte b → shift_in 32 i b ≡ i * 256 + b
unfolding shift_in
shift_in_32 i b h hb = ground (arith, bit_or-byte i b)

pub shift_in_64 : (i b : ℕ) → i < 2 ^ 56 → IsByte b → shift_in 64 i b ≡ i * 256 + b
unfolding shift_in
shift_in_64 i b h hb = ground (arith, bit_or-byte i b)

-- The slice readers as sums of their bytes.
pub u24_be-eq :
    (a b c : ℕ) (rest : List ℕ)
    → IsByte a
    → IsByte b
    → IsByte c
    → u24_be (a ∷ b ∷ c ∷ rest) ≡ ok (a * 2 ^ 16 + b * 2 ^ 8 + c)
unfolding u24_be
u24_be-eq a b c rest ha hb hc =
    ap ok (omega (arith, shift_in_32 a b, shift_in_32 (shift_in 32 a b) c))

pub u32_be-eq :
    (a b c d : ℕ) (rest : List ℕ)
    → IsByte a
    → IsByte b
    → IsByte c
    → IsByte d
    → u32_be (a ∷ b ∷ c ∷ d ∷ rest) ≡ ok (a * 2 ^ 24 + b * 2 ^ 16 + c * 2 ^ 8 + d)
unfolding u32_be
u32_be-eq a b c d rest ha hb hc hd =
    let e1 = shift_in_32 a b (omega arith) hb in
    let e2 = shift_in_32 (shift_in 32 a b) c (omega arith) hc in
    let e3 = shift_in_32 (shift_in 32 (shift_in 32 a b) c) d (omega arith) hd in ap ok (omega arith)

pub u32_le-eq :
    (a b c d : ℕ) (rest : List ℕ)
    → IsByte a
    → IsByte b
    → IsByte c
    → IsByte d
    → u32_le (a ∷ b ∷ c ∷ d ∷ rest) ≡ ok (d * 2 ^ 24 + c * 2 ^ 16 + b * 2 ^ 8 + a)
unfolding u32_le
u32_le-eq a b c d rest ha hb hc hd =
    let e1 = shift_in_32 d c (omega arith) hc in
    let e2 = shift_in_32 (shift_in 32 d c) b (omega arith) hb in
    let e3 = shift_in_32 (shift_in 32 (shift_in 32 d c) b) a (omega arith) ha in ap ok (omega arith)

-- Four bytes shifted into a 64-bit word.
quad :
    (i a b c d : ℕ)
    → i < 2 ^ 32
    → IsByte a
    → IsByte b
    → IsByte c
    → IsByte d
    → shift_in 64 (shift_in 64 (shift_in 64 (shift_in 64 i a) b) c) d
      ≡ i * 2 ^ 32 + a * 2 ^ 24 + b * 2 ^ 16 + c * 2 ^ 8 + d
quad i a b c d hi ha hb hc hd =
    let e1 = shift_in_64 i a (omega arith) ha in
    let e2 = shift_in_64 (shift_in 64 i a) b (omega arith) hb in
    let e3 = shift_in_64 (shift_in 64 (shift_in 64 i a) b) c (omega arith) hc in
    let e4 = shift_in_64 (shift_in 64 (shift_in 64 (shift_in 64 i a) b) c) d (omega arith) hd in
    omega arith

quad_top :
    (a b c d : ℕ)
    → IsByte a
    → IsByte b
    → IsByte c
    → IsByte d
    → shift_in 64 (shift_in 64 (shift_in 64 a b) c) d ≡ a * 2 ^ 24 + b * 2 ^ 16 + c * 2 ^ 8 + d
quad_top a b c d ha hb hc hd =
    let e1 = shift_in_64 a b (omega arith) hb in
    let e2 = shift_in_64 (shift_in 64 a b) c (omega arith) hc in
    let e3 = shift_in_64 (shift_in 64 (shift_in 64 a b) c) d (omega arith) hd in omega arith

-- Each width by itself, over any slice that is long enough: what comes back is what fits.
module _ (v : ℕ) (rest : List ℕ) where
  pub u16-put : (a b : ℕ) → (put_u16_be (a ∷ b ∷ rest) v >>= u16_be) ≡ ok (v % 2 ^ 16)
  unfolding put_u16_be u16_be
  u16-put a b = ap ok (omega (arith, shift_in_16 (v / 2 ^ 8 % 256) (v / 2 ^ 0 % 256)))

  u24-put : (a b c : ℕ) → (put_u24_be (a ∷ b ∷ c ∷ rest) v >>= u24_be) ≡ ok (v % 2 ^ 24)
  unfolding put_u24_be
  u24-put a b c =
      u24_be-eq _ _ _ rest (omega arith) (omega arith) (omega arith) ∙ ap ok (omega arith)

  pub u32-put : (a b c d : ℕ) → (put_u32_be (a ∷ b ∷ c ∷ d ∷ rest) v >>= u32_be) ≡ ok (v % 2 ^ 32)
  unfolding put_u32_be
  u32-put a b c d =
      u32_be-eq _ _ _ _ rest (omega arith) (omega arith) (omega arith) (omega arith)
      ∙ ap ok (omega arith)

  u32_le-put : (a b c d : ℕ) → (put_u32_le (a ∷ b ∷ c ∷ d ∷ rest) v >>= u32_le) ≡ ok (v % 2 ^ 32)
  unfolding put_u32_le
  u32_le-put a b c d =
      u32_le-eq _ _ _ _ rest (omega arith) (omega arith) (omega arith) (omega arith)
      ∙ ap ok (omega arith)

  u40-put : (a b c d e : ℕ) → (put_u40_be (a ∷ b ∷ c ∷ d ∷ e ∷ rest) v >>= u40_be) ≡ ok (v % 2 ^ 40)
  unfolding put_u40_be u40_be
  u40-put a b c d e = ap ok (
      quad _ _ _ _ _ (omega arith) (omega arith) (omega arith) (omega arith) (omega arith)
      ∙ omega arith)

  pub u64-put :
      (a b c d e f g i : ℕ)
      → (put_u64_be (a ∷ b ∷ c ∷ d ∷ e ∷ f ∷ g ∷ i ∷ rest) v >>= u64_be) ≡ ok (v % 2 ^ 64)
  unfolding put_u64_be u64_be
  u64-put a b c d e f g i =
      let high =
        quad_top (v / 2 ^ 56 % 256) (v / 2 ^ 48 % 256) (v / 2 ^ 40 % 256) (v / 2 ^ 32 % 256)
          (omega arith) (omega arith) (omega arith) (omega arith) in
      ap ok (
        quad _ _ _ _ _ (rw high (omega arith)) (omega arith) (omega arith) (omega arith)
          (omega arith)
        ∙ rw high (omega arith))

-- Every `PutX` of the writer that has a reader of its width stores the low bits of a number at the
-- front of a slice so that the reader of the slice returns exactly these bits: 16, 24 and 32
-- bits big-endian, 32 bits little-endian, 40 and 64 bits big-endian. A slice of eight bytes or
-- more is long enough for all of them.
pub get-put :
    (v a b c d e f g i : ℕ) (rest : List ℕ)
    → let buf = a ∷ b ∷ c ∷ d ∷ e ∷ f ∷ g ∷ i ∷ rest in
      ((put_u16_be buf v >>= u16_be) ≡ ok (v % 2 ^ 16))
      × ((put_u24_be buf v >>= u24_be) ≡ ok (v % 2 ^ 24))
      × ((put_u32_be buf v >>= u32_be) ≡ ok (v % 2 ^ 32))
      × ((put_u32_le buf v >>= u32_le) ≡ ok (v % 2 ^ 32))
      × ((put_u40_be buf v >>= u40_be) ≡ ok (v % 2 ^ 40))
      × ((put_u64_be buf v >>= u64_be) ≡ ok (v % 2 ^ 64))
get-put v a b c d e f g i rest = (
  u16-put v _ a b,
  u24-put v _ a b c,
  u32-put v _ a b c d,
  u32_le-put v _ a b c d,
  u40-put v _ a b c d e,
  u64-put v rest a b c d e f g i,
)
