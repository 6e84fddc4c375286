-- ===== src/Amf/Decimal.antt =====
-- `fmt.Sprintf("%d", n)`, with which the elements of an array are named.
use golive.Common.{
  ℕ, zero, suc, ◌+◌, ◌*◌, ◌-◌, ◌/◌, ◌%◌, ◌^◌, ◌<◌, ◌≤◌, ◌≡◌, ◌≢◌, refl, ap, sym, ◌∙◌,
}
use golive.Common.{arith, [], ◌∷◌, length}
use golive.Common.Go.Strings.{GoString}
use native.Mathlib.Nat.{pow-suc}

unfoldable pub decimal_loop : ℕ → ℕ → GoString → GoString
decimal_loop zero n acc = acc
decimal_loop (suc fuel) n acc = elim (n / 10) [
  | zero ↦ (48 + n % 10) ∷ acc
  | suc k ↦ decimal_loop fuel (suc k) ((48 + n % 10) ∷ acc)
]

-- A number has no more digits than it counts, and 0 has one.
unfoldable pub decimal : ℕ → GoString
decimal n = decimal_loop (n + 1) n []

undecimal : ℕ → GoString → ℕ
undecimal a [] = a
undecimal a (d ∷ ds) = undecimal (a * 10 + (d - 48)) ds

-- The two branches of a round.
round {ℓ} :
    (P : GoString → Type ℓ) (fuel n : ℕ) (acc : GoString)
    → (n / 10 ≡ 0 → P ((48 + n % 10) ∷ acc))
    → (n / 10 ≢ 0 → P (decimal_loop fuel (n / 10) ((48 + n % 10) ∷ acc)))
    → P (decimal_loop (suc fuel) n acc)
unfolding decimal_loop
round P fuel n acc last more = split (n / 10) last more
  where
    split :
        (q : ℕ)
        → (q ≡ 0 → P ((48 + n % 10) ∷ acc))
        → (q ≢ 0 → P (decimal_loop fuel q ((48 + n % 10) ∷ acc)))
        → P (elim q [
          | zero ↦ (48 + n % 10) ∷ acc
          | suc k ↦ decimal_loop fuel (suc k) ((48 + n % 10) ∷ acc)
        ])
    split zero a b = a refl
    split (suc k) a b = b (λ e. absurd (omega arith))

undecimal_loop_lem :
    (fuel n : ℕ) (acc : GoString)
    → n < fuel
    → undecimal 0 (decimal_loop fuel n acc) ≡ undecimal n acc
unfolding undecimal
undecimal_loop_lem zero n acc h = absurd (omega arith)
undecimal_loop_lem (suc fuel) n acc h =
    round (λ s. undecimal 0 s ≡ undecimal n acc) fuel n acc
      (λ e. ap (λ t. undecimal t acc) (omega arith))
      (λ e.
        undecimal_loop_lem fuel (n / 10) ((48 + n % 10) ∷ acc) (omega arith)
        ∙ ap (λ t. undecimal t acc) (omega arith))

undecimal-decimal : (n : ℕ) → undecimal 0 (decimal n) ≡ n
unfolding decimal undecimal
undecimal-decimal n = undecimal_loop_lem (n + 1) n [] (omega arith)

-- Different numbers have different names.
pub decimal_ne : (n m : ℕ) → n ≢ m → decimal n ≢ decimal m
decimal_ne n m h e = h (sym (undecimal-decimal n) ∙ ap (undecimal 0) e ∙ undecimal-decimal m)

length-decimal_loop :
    (fuel k n : ℕ) (acc : GoString)
    → n < 10 ^ suc k
    → length (decimal_loop fuel n acc) ≤ suc k + length acc
unfolding decimal_loop
length-decimal_loop zero k n acc h = omega arith
length-decimal_loop (suc fuel) zero n acc h =
    round (λ s. length s ≤ 1 + length acc) fuel n acc (λ e. omega arith) (λ e. absurd (omega arith))
length-decimal_loop (suc fuel) (suc k) n acc h =
    round (λ s. length s ≤ suc (suc k) + length acc) fuel n acc (λ e. omega arith)
      (λ e.
        let small : n / 10 < 10 ^ suc k = omega (arith, pow-suc 10 (suc k)) in
        omega (arith, length-decimal_loop fuel k (n / 10) ((48 + n % 10) ∷ acc) small))

pub length-decimal : (n : ℕ) → n < 2 ^ 31 → length (decimal n) ≤ 10
unfolding decimal
length-decimal n h = length-decimal_loop (n + 1) 9 n [] (omega arith)

decimal_loop_pos :
    (fuel n : ℕ) (acc : GoString) → 0 < fuel + length acc → 0 < length (decimal_loop fuel n acc)
unfolding decimal_loop
decimal_loop_pos zero n acc h = omega arith
decimal_loop_pos (suc fuel) n acc h =
    round (λ s. 0 < length s) fuel n acc (λ e. omega arith)
      (λ e. decimal_loop_pos fuel (n / 10) ((48 + n % 10) ∷ acc) (omega arith))

-- The name of an element is not empty.
pub decimal_pos : (n : ℕ) → 0 < length (decimal n)
unfolding decimal
decimal_pos n = decimal_loop_pos (n + 1) n [] (omega arith)
