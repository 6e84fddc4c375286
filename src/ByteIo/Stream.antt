-- ===== src/ByteIo/Stream.antt =====
-- utils/byteio/reader.go: integers read from an `io.Reader`. The 8, 16 and 24 bit readers call
-- `Read` once and want all their bytes from it; the 32 bit readers are `binary.Read`, which is
-- documented to fill its buffer by `io.ReadFull`.
use golive.Common.{ℕ, ◌+◌, ◌*◌, List, [], ◌∷◌}
use golive.Common.Go.{Result, ok, err, not_enough_data, ◌>>=◌}
use golive.Common.Go.Reader.{Reader, read, read_full}
use golive.ByteIo.Get.{u32_be, u32_le}

one_byte : List ℕ → Reader → Result (ℕ × Reader)
one_byte (a ∷ []) r = ok (a, r)
one_byte _ r = err not_enough_data

unfoldable pub read_uint8 : Reader → Result (ℕ × Reader)
unfolding one_byte
read_uint8 r = do (b, r') ← read 1 r; one_byte b r'

two_bytes_be : List ℕ → Reader → Result (ℕ × Reader)
two_bytes_be (a ∷ b ∷ []) r = ok (a * 256 + b, r)
two_bytes_be _ r = err not_enough_data

unfoldable pub read_uint16_be : Reader → Result (ℕ × Reader)
unfolding two_bytes_be
read_uint16_be r = do (b, r') ← read 2 r; two_bytes_be b r'

two_bytes_le : List ℕ → Reader → Result (ℕ × Reader)
two_bytes_le (a ∷ b ∷ []) r = ok (b * 256 + a, r)
two_bytes_le _ r = err not_enough_data

unfoldable pub read_uint16_le : Reader → Result (ℕ × Reader)
unfolding two_bytes_le
read_uint16_le r = do (b, r') ← read 2 r; two_bytes_le b r'

three_bytes_be : List ℕ → Reader → Result (ℕ × Reader)
three_bytes_be (a ∷ b ∷ c ∷ []) r = ok (a * 65536 + b * 256 + c, r)
three_bytes_be _ r = err not_enough_data

unfoldable pub read_uint24_be : Reader → Result (ℕ × Reader)
unfolding three_bytes_be
read_uint24_be r = do (b, r') ← read 3 r; three_bytes_be b r'

three_bytes_le : List ℕ → Reader → Result (ℕ × Reader)
three_bytes_le (a ∷ b ∷ c ∷ []) r = ok (c * 65536 + b * 256 + a, r)
three_bytes_le _ r = err not_enough_data

unfoldable pub read_uint24_le : Reader → Result (ℕ × Reader)
unfolding three_bytes_le
read_uint24_le r = do (b, r') ← read 3 r; three_bytes_le b r'

unfoldable pub read_uint32_be : Reader → Result (ℕ × Reader)
read_uint32_be r = do (b, r') ← read_full 4 r; v ← u32_be b; ok (v, r')

unfoldable pub read_uint32_le : Reader → Result (ℕ × Reader)
read_uint32_le r = do (b, r') ← read_full 4 r; v ← u32_le b; ok (v, r')
