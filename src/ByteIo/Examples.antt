-- ===== src/ByteIo/Examples.antt =====
-- Runs of the byte readers and writers, and the theorems at concrete inputs.
use golive.Common.{ℕ, ◌≡◌, refl, List, [], ◌∷◌}
use golive.Common.Go.{ok, ◌>>=◌}
use golive.ByteIo.Get.{shift_in, u16_be, u24_be, u32_be, u32_le, u40_be, u64_be}
use golive.ByteIo.Put.{put_u16_be, put_u24_be, put_u32_be, put_u32_le, put_u40_be, put_u64_be}
use golive.ByteIo.Put.{write_u24_be}
use golive.ByteIo.RoundTrip.{get-put}

write_u24_be_run : write_u24_be (9 ∷ []) 0x010203 ≡ ok (9 ∷ 1 ∷ 2 ∷ 3 ∷ [])
unfolding write_u24_be
write_u24_be_run = refl

u32_be_run : u32_be (1 ∷ 2 ∷ 3 ∷ 4 ∷ []) ≡ ok 0x01020304
unfolding u32_be shift_in
u32_be_run = refl

abbrev eight : List ℕ
eight = 1 ∷ 2 ∷ 3 ∷ 4 ∷ 5 ∷ 6 ∷ 7 ∷ 8 ∷ []

get-put_example :
    ((put_u16_be eight 70000 >>= u16_be) ≡ ok 4464)
    × ((put_u24_be eight 70000 >>= u24_be) ≡ ok 70000)
    × ((put_u32_be eight 70000 >>= u32_be) ≡ ok 70000)
    × ((put_u32_le eight 70000 >>= u32_le) ≡ ok 70000)
    × ((put_u40_be eight 70000 >>= u40_be) ≡ ok 70000)
    × ((put_u64_be eight 70000 >>= u64_be) ≡ ok 70000)
get-put_example = get-put 70000 1 2 3 4 5 6 7 8 []
