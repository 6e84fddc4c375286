-- ===== src/Common/Bits.antt =====
-- `|` of disjoint fields and masks on a byte, as arithmetic.
use Prim.Native.Nat.{ℕ, zero, suc, ◌+◌, ◌*◌, ◌/◌, ◌%◌, ◌^◌, ◌≤◌, ◌<◌, bit_and, bit_or}
use Prim.Native.Nat.{max, digits, bit_or-bitwise}
use mathlib.Core.Path.{◌≡◌, refl, ap, sym, ◌∙◌}
use mathlib.Core.Logic.{◌≢◌}
use native.Mathlib.Decide.{ℕ_discrete}
use mathlib.Core.Bool.{Bool, true, false, ◌&&◌}
use native.Mathlib.Omega.{arith}
use native.Mathlib.Nat.{pow-suc, le_refl}
use Prim.Native.Nat.{compare, Ordering}

same : ℕ → ℕ → Bool
same a b = elim (compare a b) [ Ordering.eq ↦ true | _ ↦ false ]

module _ (f g : ℕ → ℕ) where
  agree_below : ℕ → Bool
  unfolding same
  agree_below zero = true
  agree_below (suc n) = same (f n) (g n) && agree_below n

  agree_below→eq : (n : ℕ) → agree_below n ≡ true → (i : ℕ) → i < n → f i ≡ g i
  unfolding agree_below
  agree_below→eq zero e i h = absurd (omega arith)
  agree_below→eq (suc n) e i h = ground (arith, agree_below→eq n (ground arith) i)

pub bit_and_0x3f : (b : ℕ) → b < 256 → bit_and b 0x3f ≡ b % 64
unfolding agree_below
bit_and_0x3f = agree_below→eq _ _ 256 refl

pub bit_and_0x0f : (b : ℕ) → b < 256 → bit_and b 0x0f ≡ b % 16
unfolding agree_below
bit_and_0x0f = agree_below→eq _ _ 256 refl

pub bit_and_0xf0 : (b : ℕ) → b < 256 → bit_and b 0xf0 ≡ b / 16 * 16
unfolding agree_below
bit_and_0xf0 = agree_below→eq _ _ 256 refl

-- The digits of `a | b`, with the fuel that the library's recursion runs on.
abbrev or_with : ℕ → ℕ → ℕ → ℕ
or_with b fuel a = digits (λ rest. rest) max fuel a b

or_with_nothing : (b fuel : ℕ) → or_with b fuel 0 ≡ b
or_with_nothing b zero = refl
or_with_nothing b (suc fuel) = refl

-- Fuel of `a` and more all give the same digits.
or_with_enough : (b a k l : ℕ) → a ≤ l → a ≤ k → or_with b k a ≡ or_with b l a
or_with_enough b zero k l hl hk = or_with_nothing b k ∙ sym (or_with_nothing b l)
or_with_enough b (suc a) zero l hl hk = absurd (omega arith)
or_with_enough b (suc a) (suc k) zero hl hk = absurd (omega arith)
or_with_enough b (suc a) (suc k) (suc l) hl hk =
    let half = or_with_enough (b / 2) (suc a / 2) k l (omega arith) (omega arith) in
    ap (λ (x : ℕ). x * 2 + max (suc a % 2) (b % 2)) half

bit_or_step : (a b : ℕ) → bit_or a b ≡ bit_or (a / 2) (b / 2) * 2 + max (a % 2) (b % 2)
bit_or_step a b = elim (ℕ_discrete a 0) [
  | yes e ↦ rw e (simp bit_or-bitwise (omega arith))
  | no n ↦ nonzero a n
]
  where
    nonzero : (a : ℕ) → a ≢ 0 → bit_or a b ≡ bit_or (a / 2) (b / 2) * 2 + max (a % 2) (b % 2)
    nonzero zero n = absurd (n refl)
    nonzero (suc k) n =
        let half = or_with_enough (b / 2) (suc k / 2) k (suc k / 2) (le_refl _) (omega arith) in
        simp bit_or-bitwise (ap (λ (x : ℕ). x * 2 + max (suc k % 2) (b % 2)) half)

bit_or-zero_fuel : (n a : ℕ) → a ≤ n → bit_or a 0 ≡ a
bit_or-zero_fuel n zero h = refl
bit_or-zero_fuel zero (suc a) h = absurd (omega arith)
bit_or-zero_fuel (suc n) (suc a) h =
    omega (arith, bit_or_step (suc a) 0, bit_or-zero_fuel n (suc a / 2) (omega arith))

pub bit_or-zero : (a : ℕ) → bit_or a 0 ≡ a
bit_or-zero a = bit_or-zero_fuel a a (omega arith)

pub double_pow : (q k : ℕ) → q * 2 ^ suc k ≡ 2 * (q * 2 ^ k)
double_pow q k = omega (arith, ap (λ (t : ℕ). q * t) (pow-suc 2 k))

-- `|` of a field at bit `k` and a field of `k` bits is their sum.
pub bit_or-field : (k q r : ℕ) → r < 2 ^ k → bit_or (q * 2 ^ k) r ≡ q * 2 ^ k + r
bit_or-field zero q r h = ground (arith, bit_or-zero q)
bit_or-field (suc k) q r h =
    ground
      (arith, bit_or_step (q * 2 ^ suc k) r, double_pow q k, bit_or-field k q (r / 2) (omega arith))

pub bit_or-byte : (q r : ℕ) → r < 256 → bit_or (q * 256) r ≡ q * 256 + r
bit_or-byte q r h = bit_or-field 8 q r h

pub bit_or_top2 : (q r : ℕ) → r < 64 → bit_or (q * 64) r ≡ q * 64 + r
bit_or_top2 q r h = bit_or-field 6 q r h

bit_or-zero_left : (a : ℕ) → bit_or 0 a ≡ a
bit_or-zero_left a = simp bit_or-bitwise

-- The same with the low field first.
pub bit_or-high : (k q r : ℕ) → r < 2 ^ k → bit_or r (q * 2 ^ k) ≡ q * 2 ^ k + r
bit_or-high zero q r h =
    let e : r ≡ 0 = omega arith in rw e (bit_or-zero_left (q * 1) ∙ omega arith)
bit_or-high (suc k) q r h =
    ground
      (arith, bit_or_step r (q * 2 ^ suc k), double_pow q k, bit_or-high k q (r / 2) (omega arith))
