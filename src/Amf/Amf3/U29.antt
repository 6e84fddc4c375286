-- ===== src/Amf/Amf3/U29.antt =====
-- utils/amf/amf3.go: integers of 29 bits, of one to four bytes.
use golive.Common.{
  arith, ℕ, zero, suc, ◌+◌, ◌*◌, ◌/◌, ◌%◌, ◌^◌, ◌<◌, ◌≤◌, ◌≡◌, refl, ap, ◌∙◌, bit_or, leb, ◌==◌,
}
use golive.Common.{
  Bool-cases, List, [], ◌∷◌, ◌++◌, length, inl, inr, if◌then◌else◌, true, false, Bool,
}
use golive.Common.Bits.{bit_or-high}
use golive.Common.Go.{Result, ok, err, panic, stuck, ◌>>=◌, out_of_range, IsByte}
use mathlib.Core.Path.{transport}
use golive.Amf.Read.{Rest, read_byte}

-- A byte with the flag that another one follows; `m & 0x7F` is `m % 2 ^ 7`.
unfoldable pub with_flag : ℕ → ℕ
with_flag m = bit_or m 0x80 % 256

-- `AMF3_WriteU29`
unfoldable pub write_u29 : ℕ → Result (List ℕ)
write_u29 n =
    if leb n 0x7f
    then ok (n % 256 ∷ [])
    else if leb n 0x3fff
    then ok (with_flag (n / 2 ^ 7) ∷ (n % 2 ^ 7) ∷ [])
    else if leb n 0x1fffff
    then ok (with_flag (n / 2 ^ 14) ∷ with_flag (n / 2 ^ 7 % 2 ^ 7) ∷ (n % 2 ^ 7) ∷ [])
    else if leb n 0x1fffffff
    then ok (
        with_flag (n / 2 ^ 22)
        ∷ with_flag (n / 2 ^ 15 % 2 ^ 7)
        ∷ with_flag (n / 2 ^ 8 % 2 ^ 7)
        ∷ (n % 256)
        ∷ [])
    else err out_of_range

-- The loop of `AMF3_ReadU29` over the bytes that may have the flag, and the byte after it.
unfoldable pub read_u29_loop : ℕ → ℕ → Rest → Result (ℕ × Rest)
read_u29_loop zero n r = read_byte r >>= λ (b, r'). ok ((n * 2 ^ 8 + b) % 2 ^ 32, r')
read_u29_loop (suc count) n r = read_byte r >>= λ (b, r').
    (let n' = (n * 2 ^ 7 + b % 2 ^ 7) % 2 ^ 32 in
      let more = read_u29_loop count n' r' in if b / 2 ^ 7 % 2 == 0 then ok (n', r') else more)

unfoldable pub read_u29 : Rest → Result (ℕ × Rest)
read_u29 r = read_u29_loop 3 0 r

with_flag_lem : (m : ℕ) → m < 128 → with_flag m ≡ 128 + m
unfolding with_flag
with_flag_lem m h = omega (arith, bit_or-high 7 1 m h)

-- A byte with the flag, one without, and a fourth byte.
module _ (n m v : ℕ) (r : Rest) where
  loop_more :
      (count : ℕ)
      → m < 128
      → n < 2 ^ 25
      → n * 128 + m ≡ v
      → read_u29_loop (suc count) n (with_flag m ∷ r) ≡ read_u29_loop count v r
  unfolding read_u29_loop read_byte
  loop_more count h small e =
      let flag : (128 + m) / 2 ^ 7 % 2 ≡ 1 = omega arith in
      let value : (n * 2 ^ 7 + (128 + m) % 2 ^ 7) % 2 ^ 32 ≡ v = omega arith in
      rw (with_flag_lem m h) (rw (flag, value) refl)

  loop_last :
      (count : ℕ)
      → m < 128
      → n < 2 ^ 25
      → n * 128 + m ≡ v
      → read_u29_loop (suc count) n (m ∷ r) ≡ ok (v, r)
  unfolding read_u29_loop read_byte
  loop_last count h small e =
      let flag : m / 2 ^ 7 % 2 ≡ 0 = omega arith in
      let value : (n * 2 ^ 7 + m % 2 ^ 7) % 2 ^ 32 ≡ v = omega arith in rw (flag, value) refl

  loop_end : m < 256 → n < 2 ^ 21 → n * 256 + m ≡ v → read_u29_loop zero n (m ∷ r) ≡ ok (v, r)
  unfolding read_u29_loop read_byte
  loop_end h small e = let value : (n * 2 ^ 8 + m) % 2 ^ 32 ≡ v = omega arith in rw value refl

module _ (n : ℕ) (rest : Rest) where
  one_byte : n < 128 → read_u29 (n % 256 ∷ rest) ≡ ok (n, rest)
  unfolding read_u29
  one_byte h = loop_last 0 (n % 256) n rest 2 (omega arith) (omega arith) (omega arith)

  two_bytes : n < 2 ^ 14 → read_u29 (with_flag (n / 2 ^ 7) ∷ (n % 2 ^ 7) ∷ rest) ≡ ok (n, rest)
  unfolding read_u29
  two_bytes h =
      let a = n / 2 ^ 7 in
      loop_more 0 a a _ 2 (omega arith) (omega arith) (omega arith)
      ∙ loop_last a (n % 2 ^ 7) n rest 1 (omega arith) (omega arith) (omega arith)

  three_bytes :
      n < 2 ^ 21
      → read_u29 (with_flag (n / 2 ^ 14) ∷ with_flag (n / 2 ^ 7 % 2 ^ 7) ∷ (n % 2 ^ 7) ∷ rest)
        ≡ ok (n, rest)
  unfolding read_u29
  three_bytes h =
      let a = n / 2 ^ 14 in
      let b = n / 2 ^ 7 in
      loop_more 0 a a _ 2 (omega arith) (omega arith) (omega arith)
      ∙ loop_more a (b % 2 ^ 7) b _ 1 (omega arith) (omega arith) (omega arith)
      ∙ loop_last b (n % 2 ^ 7) n rest 0 (omega arith) (omega arith) (omega arith)

  four_bytes :
      n < 2 ^ 29
      → read_u29 (
          with_flag (n / 2 ^ 22)
          ∷ with_flag (n / 2 ^ 15 % 2 ^ 7)
          ∷ with_flag (n / 2 ^ 8 % 2 ^ 7)
          ∷ (n % 256)
          ∷ rest)
        ≡ ok (n, rest)
  unfolding read_u29
  four_bytes h =
      let a = n / 2 ^ 22 in
      let b = n / 2 ^ 15 in
      let c = n / 2 ^ 8 in
      loop_more 0 a a _ 2 (omega arith) (omega arith) (omega arith)
      ∙ loop_more a (b % 2 ^ 7) b _ 1 (omega arith) (omega arith) (omega arith)
      ∙ loop_more b (c % 2 ^ 7) c _ 0 (omega arith) (omega arith) (omega arith)
      ∙ loop_end c (n % 256) n rest (omega arith) (omega arith) (omega arith)

-- A number of less than 29 bits is written as one to four bytes, which are read back.
pub read_u29-write_u29 :
    (n : ℕ) (rest : Rest)
    → n < 2 ^ 29
    → (w : List ℕ) × (write_u29 n ≡ ok w)
      × (read_u29 (w ++ rest) ≡ ok (n, rest))
      × (1 ≤ length w)
      × (length w ≤ 4)
unfolding write_u29
read_u29-write_u29 n rest h = elim (Bool-cases (leb n 0x7f)) [
  | inl e ↦ (n % 256 ∷ [], rw e refl, one_byte n rest (ground (arith, e)), omega arith, omega arith)
  | inr e ↦ elim (Bool-cases (leb n 0x3fff)) [
    | inl f ↦ (
      with_flag (n / 2 ^ 7) ∷ (n % 2 ^ 7) ∷ [],
      rw (e, f) refl,
      two_bytes n rest (ground (arith, f)),
      omega arith,
      omega arith,
    )
    | inr f ↦ elim (Bool-cases (leb n 0x1fffff)) [
      | inl g ↦ (
        with_flag (n / 2 ^ 14) ∷ with_flag (n / 2 ^ 7 % 2 ^ 7) ∷ (n % 2 ^ 7) ∷ [],
        rw (e, f, g) refl,
        three_bytes n rest (ground (arith, g)),
        omega arith,
        omega arith,
      )
      | inr g ↦
          let all : leb n 0x1fffffff ≡ true = ground arith in
          (
            with_flag (n / 2 ^ 22)
                ∷ with_flag (n / 2 ^ 15 % 2 ^ 7)
                ∷ with_flag (n / 2 ^ 8 % 2 ^ 7)
                ∷ (n % 256)
                ∷ [],
            rw (e, f, g, all) refl,
            four_bytes n rest h,
            omega arith,
            omega arith,
          )
    ]
  ]
]

-- A number of more than 29 bits is refused.
pub write_u29_beyond : (n : ℕ) → 2 ^ 29 ≤ n → write_u29 n ≡ err out_of_range
unfolding write_u29
write_u29_beyond n h = ground arith

abbrev pub AreBytes : Rest → Type 0
AreBytes [] = Unit {0}
AreBytes (b ∷ r) = IsByte b × AreBytes r

-- A number of 29 bits, and at most `k` bytes taken of `r`.
abbrev Within : ℕ → Rest → Result (ℕ × Rest) → Type 0
Within k r (ok (m, r')) = (m < 2 ^ 29) × (length r ≤ length r' + k) × (length r' < length r)
Within k r (err e) = Unit {0}
Within k r panic = Unit {0}
Within k r stuck = Unit {0}

Within-if :
    (k : ℕ) (r : Rest) (t : Bool) (x y : Result (ℕ × Rest))
    → Within k r x
    → Within k r y
    → Within k r (if t then x else y)
Within-if k r true x y p q = p
Within-if k r false x y p q = q

Within-byte : (k b : ℕ) (r : Rest) (x : Result (ℕ × Rest)) → Within k r x → Within (suc k) (b ∷ r) x
Within-byte k b r (ok (m, r')) (h, l, t) = (h, omega arith, omega arith)
Within-byte k b r (err e) h = tt
Within-byte k b r panic h = tt
Within-byte k b r stuck h = tt

last-Within : (n : ℕ) → n < 2 ^ 21 → (r : Rest) → AreBytes r → Within 1 r (read_u29_loop 0 n r)
unfolding read_u29_loop read_byte
last-Within n h [] bytes = tt
last-Within n h (b ∷ r) (hb, bytes) = (omega arith, omega arith, omega arith)

-- A byte before those of which the rest of the loop speaks.
step-Within :
    (count k : ℕ)
    → k ≤ 2 ^ 14
    → ((n : ℕ)
        → n < 128 * k
        → (r : Rest) → AreBytes r
        → Within (suc count) r (read_u29_loop count n r))
    → (n : ℕ) → n < k
    → (r : Rest) → AreBytes r
    → Within (suc (suc count)) r (read_u29_loop (suc count) n r)
unfolding read_u29_loop read_byte
step-Within count k small more n h [] bytes = tt
step-Within count k small more n h (b ∷ r) (hb, bytes) =
    let v = (n * 2 ^ 7 + b % 2 ^ 7) % 2 ^ 32 in
    let rest = read_u29_loop count v r in
    Within-if (suc (suc count)) (b ∷ r) (b / 2 ^ 7 % 2 == 0) (ok (v, r)) rest
      (omega arith, omega arith, omega arith)
      (Within-byte (suc count) b r rest (more v (omega arith) r bytes))

read_u29-Within : (r : Rest) → AreBytes r → Within 4 r (read_u29 r)
unfolding read_u29
read_u29-Within r bytes =
    step-Within 2 1 (omega arith)
      (step-Within 1 128 (omega arith) (step-Within 0 (2 ^ 14) (omega arith) last-Within)) 0
      (omega arith) r bytes

-- What AMF3_ReadU29 reads from any bytes has 29 bits, and it takes one to four bytes.
pub read_u29-bounds :
    (r r' : Rest) (n : ℕ)
    → AreBytes r
    → read_u29 r ≡ ok (n, r')
    → (n < 2 ^ 29) × (length r ≤ length r' + 4) × (length r' < length r)
read_u29-bounds r r' n bytes e = transport (ap (Within 4 r) e) (read_u29-Within r bytes)
