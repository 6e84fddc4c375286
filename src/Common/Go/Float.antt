-- ===== src/Common/Go/Float.antt =====
-- `float64` as the number of its 64 bits (IEEE 754): the conversions between `float64` and the integer
-- types of Go.
use golive.Common.Tests.{ltb, leb, ◌==◌, if◌then◌else◌, leb→le, le→leb, Bool-cases}
use Prim.Native.Nat.{ℕ, zero, suc, ◌+◌, ◌-◌, ◌*◌, ◌/◌, ◌%◌, ◌^◌, ◌≤◌, ◌<◌}
use mathlib.Core.Path.{◌≡◌, refl, ap, ◌∙◌, transport}
use mathlib.Core.Logic.{◌≢◌, inl, inr}
use mathlib.Core.Bool.{Bool, ◌&&◌, ◌||◌}
use native.Mathlib.Omega.{arith}
use native.Mathlib.Nat.{pow-suc, pow-le-pow_right, mul-div_cancel, one-le-pow}
use golive.Common.Bits.{double_pow}

-- The library's ℤ, on the native numbers.
pub data ℤ : Type 0 where
  pos : ℕ → ℤ
  negsuc : ℕ → ℤ

-- The number of binary digits after the first.
unfoldable pub log2_loop : ℕ → ℕ → ℕ
log2_loop zero n = 0
log2_loop (suc fuel) n = elim (n / 2) [ zero ↦ 0 | suc k ↦ suc (log2_loop fuel (suc k)) ]

unfoldable pub log2 : ℕ → ℕ
log2 n = log2_loop n n

-- `n / 2 ^ suc k`, rounded to the nearest, and to the even one of two.
unfoldable pub round_half_even : ℕ → ℕ → ℕ
round_half_even n k =
    let q = n / 2 ^ suc k in
    let r = n % 2 ^ suc k in if ltb (2 ^ k) r || (r == 2 ^ k && q % 2 == 1) then q + 1 else q

-- `float64(n)` of an unsigned integer. The exponent is one too small, since the leading digit is added
-- to it.
unfoldable pub from_uint : ℕ → ℕ
from_uint zero = 0
from_uint (suc k) =
    let l = log2 (suc k) in
    if leb l 52
    then (1022 + l) * 2 ^ 52 + suc k * 2 ^ (52 - l)
    else (1022 + l) * 2 ^ 52 + round_half_even (suc k) (l - 53)

-- `float64(n)` of a signed integer
unfoldable pub from_int : ℤ → ℕ
from_int (pos n) = from_uint n
from_int (negsuc n) = 2 ^ 63 + from_uint (suc n)

abbrev signed : ℕ → ℕ → ℤ
signed zero n = pos n
signed (suc s) zero = pos 0
signed (suc s) (suc n) = negsuc n

-- The magnitude of a `float64` with exponent `e` and mantissa `m`, without what is after the point.
abbrev magnitude : ℕ → ℕ → ℕ
magnitude e m =
    if ltb e 1023
    then 0
    else if leb e 1075
    then (2 ^ 52 + m) / 2 ^ (1075 - e)
    else (2 ^ 52 + m) * 2 ^ (e - 1075)

-- `int(f)` of 64 bits. What comes of a magnitude of 2^63 or more, and of what is no number, is up
-- to the implementation of Go: it is the parameter `beyond`.
unfoldable pub to_int : (ℕ → ℤ) → ℕ → ℤ
to_int beyond f =
    let e = f / 2 ^ 52 % 2 ^ 11 in
    let m = f % 2 ^ 52 in if ltb e 1086 then signed (f / 2 ^ 63 % 2) (magnitude e m) else beyond f

-- `uint32(f)`, in the same way.
unfoldable pub to_uint32 : (ℕ → ℕ) → ℕ → ℕ
to_uint32 beyond f =
    let e = f / 2 ^ 52 % 2 ^ 11 in
    let m = f % 2 ^ 52 in
    if ltb e 1023 then 0 else if ltb e 1055 && f / 2 ^ 63 % 2 == 0 then magnitude e m else beyond f

-- `f == 0`, for both zeros
unfoldable pub is_zero : ℕ → Bool
is_zero f = f == 0 || f == 2 ^ 63

halves {ℓ} :
    (P : ℕ → Type ℓ) (fuel n : ℕ)
    → (n / 2 ≡ 0 → P 0)
    → (n / 2 ≢ 0 → P (suc (log2_loop fuel (n / 2))))
    → P (log2_loop (suc fuel) n)
unfolding log2_loop
halves P fuel n last more = split (n / 2) last more
  where
    split :
        (q : ℕ)
        → (q ≡ 0 → P 0)
        → (q ≢ 0 → P (suc (log2_loop fuel q)))
        → P (elim q [ zero ↦ 0 | suc k ↦ suc (log2_loop fuel (suc k)) ])
    split zero a b = a refl
    split (suc k) a b = b (λ e. absurd (omega arith))

log2_loop-bounds :
    (fuel n : ℕ) → 0 < n → n ≤ fuel → (2 ^ log2_loop fuel n ≤ n) × (n < 2 ^ suc (log2_loop fuel n))
log2_loop-bounds zero n h h' = absurd (omega arith)
log2_loop-bounds (suc fuel) n h h' =
    halves (λ l. (2 ^ l ≤ n) × (n < 2 ^ suc l)) fuel n (λ e. (omega arith, omega arith))
      (λ e.
        let (a, b) = log2_loop-bounds fuel (n / 2) (omega arith) (omega arith) in
        let l = log2_loop fuel (n / 2) in
        (omega (arith, a, pow-suc 2 l), omega (arith, b, pow-suc 2 l, pow-suc 2 (suc l))))

scaled :
    (k l n : ℕ)
    → 2 ^ l ≤ n
    → n < 2 ^ suc l
    → (2 ^ (l + k) ≤ n * 2 ^ k) × (n * 2 ^ k < 2 ^ suc (l + k))
scaled zero l n h h' = let e : l + 0 ≡ l = omega arith in rw e (omega arith, omega arith)
scaled (suc k) l n h h' =
    let (a, b) = scaled k l n h h' in
    let e = double_pow n k in
    let next : l + suc k ≡ suc (l + k) = omega arith in
    rw next (omega (arith, e, pow-suc 2 (l + k)), omega (arith, e, b, pow-suc 2 (suc (l + k))))

log2-bounds : (n : ℕ) → 0 < n → (2 ^ log2 n ≤ n) × (n < 2 ^ suc (log2 n))
unfolding log2
log2-bounds n h = log2_loop-bounds n n h (omega arith)

to_int_zero : (beyond : ℕ → ℤ) → to_int beyond 0 ≡ pos 0
unfolding to_int
to_int_zero beyond = refl

log2_small : (n : ℕ) → 0 < n → n < 2 ^ 53 → log2 n ≤ 52
unfolding log2
log2_small n h h' =
    let (a, b) = log2_loop-bounds n n h (omega arith) in
    elim (Bool-cases (leb (log2_loop n n) 52)) [
      | inl e ↦ leb→le _ _ e
      | inr e ↦
          let big : 53 ≤ log2_loop n n = ground (arith, e) in
          absurd (omega (arith, a, h', pow-le-pow_right {n = 2} (omega arith) big))
    ]

nonneg-to_int :
    (beyond : ℕ → ℤ) (f e m : ℕ)
    → f / 2 ^ 63 % 2 ≡ 0
    → f / 2 ^ 52 % 2 ^ 11 ≡ e
    → f % 2 ^ 52 ≡ m
    → 1023 ≤ e
    → e ≤ 1075
    → to_int beyond f ≡ pos ((2 ^ 52 + m) / 2 ^ (1075 - e))
unfolding to_int
nonneg-to_int beyond f e m s x y l h = rw (s, x, y) (ground arith)

-- A number made of an exponent and a mantissa with its leading digit.
to_int-parts :
    (beyond : ℕ → ℤ) (l s : ℕ)
    → l ≤ 52
    → 2 ^ 52 ≤ s
    → s < 2 ^ 53
    → to_int beyond ((1022 + l) * 2 ^ 52 + s) ≡ pos (s / 2 ^ (52 - l))
to_int-parts beyond l s h a b =
    let f = (1022 + l) * 2 ^ 52 + s in
    let e =
      nonneg-to_int beyond f (1023 + l) (s - 2 ^ 52) (omega arith) (omega arith) (omega arith)
        (omega arith) (omega arith) in
    let whole : 2 ^ 52 + (s - 2 ^ 52) ≡ s = omega arith in
    let shift : 1075 - (1023 + l) ≡ 52 - l = omega arith in e ∙ rw (whole, shift) refl

-- A number below 2^53 survives its conversion to `float64` and back.
pub to_int-from_uint : (beyond : ℕ → ℤ) (n : ℕ) → n < 2 ^ 53 → to_int beyond (from_uint n) ≡ pos n
unfolding from_uint
to_int-from_uint beyond zero h = to_int_zero beyond
to_int-from_uint beyond (suc n) h =
    let l = log2 (suc n) in
    let small : l ≤ 52 = log2_small (suc n) (omega arith) h in
    let (a, b) = log2-bounds (suc n) (omega arith) in
    let (a', b') = scaled (52 - l) l (suc n) a b in
    let whole : l + (52 - l) ≡ 52 = omega arith in
    let s = suc n * 2 ^ (52 - l) in
    let lo : 2 ^ 52 ≤ s = transport (ap (λ (t : ℕ). 2 ^ t ≤ s) whole) a' in
    let hi : s < 2 ^ 53 = transport (ap (λ (t : ℕ). s < 2 ^ suc t) whole) b' in
    rw (le→leb l 52 small) (
      to_int-parts beyond l s small lo hi
      ∙ ap pos (mul-div_cancel (suc n) (one-le-pow (52 - l) 2 (omega arith))))

pub from_uint_bits : (n : ℕ) → n < 2 ^ 53 → from_uint n < 2 ^ 64
unfolding from_uint
from_uint_bits zero h = omega arith
from_uint_bits (suc n) h =
    let l = log2 (suc n) in
    let small : l ≤ 52 = log2_small (suc n) (omega arith) h in
    let (a, b) = log2-bounds (suc n) (omega arith) in
    let (a', b') = scaled (52 - l) l (suc n) a b in
    let whole : l + (52 - l) ≡ 52 = omega arith in
    let s = suc n * 2 ^ (52 - l) in
    let hi : s < 2 ^ 53 = transport (ap (λ (t : ℕ). s < 2 ^ suc t) whole) b' in
    rw (le→leb l 52 small) (omega arith)
