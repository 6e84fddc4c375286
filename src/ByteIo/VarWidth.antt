-- ===== src/ByteIo/VarWidth.antt =====
-- `UVarBE` against the big-endian number that its name promises.
use golive.Common.{ℕ, ◌+◌, ◌*◌, ◌%◌, ◌^◌, ◌≡◌, ap, arith, List, [], ◌∷◌, ◌++◌}
use golive.Common.Bits.{bit_or-byte}
use golive.Common.Go.{ok, IsByte}
use golive.ByteIo.Get.{uvar_be, uvar_loop}

uvar_loop_last_two :
    (front : List ℕ) (i x y : ℕ)
    → IsByte x
    → IsByte y
    → uvar_loop i (front ++ (x ∷ y ∷ [])) ≡ ok (x * 256 + y)
unfolding uvar_loop
uvar_loop_last_two [] i x y hx hy = ap ok (ground (arith, bit_or-byte x y))
uvar_loop_last_two (a ∷ []) i x y hx hy = uvar_loop_last_two [] (a * 256 % 2 ^ 64) x y hx hy
uvar_loop_last_two (a ∷ b ∷ front) i x y hx hy =
    uvar_loop_last_two (b ∷ front) (a * 256 % 2 ^ 64) x y hx hy

-- `UVarBE` of a slice of two bytes or more is the number of its last two bytes alone: whatever
-- stands before them is overwritten, so that for three bytes and more it is not the big-endian
-- value of the slice.
pub uvar_be_last_two :
    (front : List ℕ) (x y : ℕ)
    → IsByte x
    → IsByte y
    → uvar_be (front ++ (x ∷ y ∷ [])) ≡ ok (x * 256 + y)
unfolding uvar_be
uvar_be_last_two front x y hx hy = uvar_loop_last_two front 0 x y hx hy
