-- ===== src/ByteIo/Get.antt =====
-- utils/byteio/reader.go: integers read from the front of a slice, by shifts and `|`.
use golive.Common.{ℕ, ◌*◌, ◌%◌, ◌^◌, List, [], ◌∷◌, bit_or}
use golive.Common.Go.{Result, ok, panic}

-- `i <<= 8; i |= uintN(b)` in a word of `w` bits.
unfoldable pub shift_in : ℕ → ℕ → ℕ → ℕ
shift_in w i b = bit_or (i * 256 % 2 ^ w) b

unfoldable pub u8 : List ℕ → Result ℕ
u8 (a ∷ _) = ok a
u8 _ = panic

unfoldable pub u16_be : List ℕ → Result ℕ
u16_be (a ∷ b ∷ _) = ok (shift_in 16 a b)
u16_be _ = panic

unfoldable pub u24_be : List ℕ → Result ℕ
u24_be (a ∷ b ∷ c ∷ _) = ok (shift_in 32 (shift_in 32 a b) c)
u24_be _ = panic

unfoldable pub u32_be : List ℕ → Result ℕ
u32_be (a ∷ b ∷ c ∷ d ∷ _) = ok (shift_in 32 (shift_in 32 (shift_in 32 a b) c) d)
u32_be _ = panic

unfoldable pub u32_le : List ℕ → Result ℕ
u32_le (a ∷ b ∷ c ∷ d ∷ _) = ok (shift_in 32 (shift_in 32 (shift_in 32 d c) b) a)
u32_le _ = panic

unfoldable pub u40_be : List ℕ → Result ℕ
u40_be (a ∷ b ∷ c ∷ d ∷ e ∷ _) =
    ok (shift_in 64 (shift_in 64 (shift_in 64 (shift_in 64 a b) c) d) e)
u40_be _ = panic

unfoldable pub u48_be : List ℕ → Result ℕ
u48_be (a ∷ b ∷ c ∷ d ∷ e ∷ f ∷ _) =
    ok (shift_in 64 (shift_in 64 (shift_in 64 (shift_in 64 (shift_in 64 a b) c) d) e) f)
u48_be _ = panic

unfoldable pub u64_be : List ℕ → Result ℕ
u64_be (a ∷ b ∷ c ∷ d ∷ e ∷ f ∷ g ∷ h ∷ _) =
    let high = shift_in 64 (shift_in 64 (shift_in 64 a b) c) d in
    ok (shift_in 64 (shift_in 64 (shift_in 64 (shift_in 64 high e) f) g) h)
u64_be _ = panic

-- The loop of `UVarBE` at the bytes `b[j:]`: `i = uint64(b[j]); i <<= 8` while `j < len(b)-1`, then
-- `i |= uint64(b[j])`.
unfoldable pub uvar_loop : ℕ → List ℕ → Result ℕ
uvar_loop i [] = panic
uvar_loop i (b ∷ []) = ok (bit_or i b)
uvar_loop i (b ∷ c ∷ rest) = uvar_loop (b * 256 % 2 ^ 64) (c ∷ rest)

unfoldable pub uvar_be : List ℕ → Result ℕ
unfolding uvar_loop
uvar_be b = uvar_loop 0 b
