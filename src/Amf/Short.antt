-- ===== src/Amf/Short.antt =====
-- A string whose length says more bytes than there are.
use golive.Common.{
  ℕ, zero, suc, ◌+◌, ◌*◌, ◌-◌, ◌^◌, ◌<◌, ◌≤◌, ◌≡◌, refl, ap, arith, List, [], ◌∷◌, ◌++◌,
}
use golive.Common.{length, take, drop, replicate}
use golive.Common.Go.{Result, ok}
use golive.Common.Go.Strings.{GoString}
use golive.Amf.{Value, text}
use golive.Amf.Read.{
  Rest, read_once, read_byte, read_utf8, read_value, read_value_loop, read_marked,
}
use golive.Amf.Read.{read_simple}
use golive.Amf.Write.{big16}
use golive.Amf.Entries.{read_exact-append, read_u16, suc_nonzero}

take_long : (n : ℕ) (s : List ℕ) → length s ≤ n → take n s ≡ s
take_long zero [] h = refl
take_long (suc n) [] h = refl
take_long zero (x ∷ s) h = absurd (omega arith)
take_long (suc n) (x ∷ s) h = ap (λ l. x ∷ l) (take_long n s (omega arith))

drop_long : (n : ℕ) (s : List ℕ) → length s ≤ n → drop n s ≡ []
drop_long zero [] h = refl
drop_long (suc n) [] h = refl
drop_long zero (x ∷ s) h = absurd (omega arith)
drop_long (suc n) (x ∷ s) h = drop_long n s (omega arith)

read_once_short :
    (n x : ℕ) (s : List ℕ)
    → length (x ∷ s) ≤ n
    → read_once n (x ∷ s) ≡ ok ((x ∷ s) ++ replicate (n - length (x ∷ s)) 0, [])
unfolding read_once
read_once_short n x s h = rw (take_long n (x ∷ s) h, drop_long n (x ∷ s) h) refl

truncated_loop :
    (amf3 : Rest → Result (Value × Rest)) (fuel n x : ℕ) (s : GoString)
    → length (x ∷ s) < suc n
    → suc n < 2 ^ 16
    → read_value_loop amf3 (suc fuel) (0x02 ∷ big16 (suc n) (x ∷ s))
      ≡ ok (text ((x ∷ s) ++ replicate (suc n - length (x ∷ s)) 0), [])
unfolding read_value_loop read_byte read_marked read_simple read_utf8
truncated_loop amf3 fuel n x s h h' =
    rw
      (
        read_exact-append (big16 (suc n) []) (x ∷ s) (omega arith),
        read_u16 (suc n) h',
        suc_nonzero n,
        read_once_short (suc n) x s (omega arith),
      )
      refl

-- A string marker with a length of more bytes than follow, but at least one: `ReadValue` reports no
-- error, and returns the bytes that follow with as many zero bytes as are missing.
pub truncated_string :
    (amf3 : Rest → Result (Value × Rest)) (n x : ℕ) (s : GoString)
    → length (x ∷ s) < suc n
    → suc n < 2 ^ 16
    → read_value amf3 (0x02 ∷ big16 (suc n) (x ∷ s))
      ≡ ok (text ((x ∷ s) ++ replicate (suc n - length (x ∷ s)) 0), [])
unfolding read_value
truncated_string amf3 n x s h h' =
    let fuel : 2 * length (0x02 ∷ big16 (suc n) (x ∷ s)) + 1
        ≡ suc (2 * length (0x02 ∷ big16 (suc n) (x ∷ s))) =
      omega arith in
    rw fuel (truncated_loop amf3 _ n x s h h')
