-- ===== src/ByteIo/Put.antt =====
-- utils/byteio/writer.go: `PutX` writes into the front of a slice, `WriteX` appends to a writer.
-- The writer is a `bytes.Buffer` at each of the callers that are modelled: the bytes written so
-- far. Its `Write` never fails.
use golive.Common.{ℕ, ◌/◌, ◌%◌, ◌^◌, List, ◌∷◌, ◌++◌, replicate}
use golive.Common.Go.{Result, ok, panic, ◌>>=◌}

-- `byte(v >> k)`
abbrev pub byte_at : ℕ → ℕ → ℕ
byte_at k v = v / 2 ^ k % 256

unfoldable pub put_u8 : List ℕ → ℕ → Result (List ℕ)
put_u8 (_ ∷ b) v = ok (byte_at 0 v ∷ b)
put_u8 _ v = panic

unfoldable pub put_u16_be : List ℕ → ℕ → Result (List ℕ)
put_u16_be (_ ∷ _ ∷ b) v = ok (byte_at 8 v ∷ byte_at 0 v ∷ b)
put_u16_be _ v = panic

unfoldable pub put_u16_le : List ℕ → ℕ → Result (List ℕ)
put_u16_le (_ ∷ _ ∷ b) v = ok (byte_at 0 v ∷ byte_at 8 v ∷ b)
put_u16_le _ v = panic

unfoldable pub put_u24_be : List ℕ → ℕ → Result (List ℕ)
put_u24_be (_ ∷ _ ∷ _ ∷ b) v = ok (byte_at 16 v ∷ byte_at 8 v ∷ byte_at 0 v ∷ b)
put_u24_be _ v = panic

unfoldable pub put_u24_le : List ℕ → ℕ → Result (List ℕ)
put_u24_le (_ ∷ _ ∷ _ ∷ b) v = ok (byte_at 0 v ∷ byte_at 8 v ∷ byte_at 16 v ∷ b)
put_u24_le _ v = panic

unfoldable pub put_u32_be : List ℕ → ℕ → Result (List ℕ)
put_u32_be (_ ∷ _ ∷ _ ∷ _ ∷ b) v = ok (byte_at 24 v ∷ byte_at 16 v ∷ byte_at 8 v ∷ byte_at 0 v ∷ b)
put_u32_be _ v = panic

unfoldable pub put_u32_le : List ℕ → ℕ → Result (List ℕ)
put_u32_le (_ ∷ _ ∷ _ ∷ _ ∷ b) v = ok (byte_at 0 v ∷ byte_at 8 v ∷ byte_at 16 v ∷ byte_at 24 v ∷ b)
put_u32_le _ v = panic

unfoldable pub put_u40_be : List ℕ → ℕ → Result (List ℕ)
put_u40_be (_ ∷ _ ∷ _ ∷ _ ∷ _ ∷ b) v =
    ok (byte_at 32 v ∷ byte_at 24 v ∷ byte_at 16 v ∷ byte_at 8 v ∷ byte_at 0 v ∷ b)
put_u40_be _ v = panic

unfoldable pub put_u48_be : List ℕ → ℕ → Result (List ℕ)
put_u48_be (_ ∷ _ ∷ _ ∷ _ ∷ _ ∷ _ ∷ b) v =
    ok (byte_at 40 v ∷ byte_at 32 v ∷ byte_at 24 v ∷ byte_at 16 v ∷ byte_at 8 v ∷ byte_at 0 v ∷ b)
put_u48_be _ v = panic

unfoldable pub put_u64_be : List ℕ → ℕ → Result (List ℕ)
put_u64_be (_ ∷ _ ∷ _ ∷ _ ∷ _ ∷ _ ∷ _ ∷ _ ∷ b) v =
    let low = byte_at 24 v ∷ byte_at 16 v ∷ byte_at 8 v ∷ byte_at 0 v ∷ b in
    ok (byte_at 56 v ∷ byte_at 48 v ∷ byte_at 40 v ∷ byte_at 32 v ∷ low)
put_u64_be _ v = panic

-- `b := make([]byte, n); PutX(b, v); r.Write(b)`
abbrev write : ℕ → (List ℕ → ℕ → Result (List ℕ)) → List ℕ → ℕ → Result (List ℕ)
write n put w v = do b ← put (replicate n 0) v; ok (w ++ b)

unfoldable pub write_u8 : List ℕ → ℕ → Result (List ℕ)
unfolding put_u8
write_u8 = write 1 put_u8

unfoldable pub write_u16_be : List ℕ → ℕ → Result (List ℕ)
unfolding put_u16_be
write_u16_be = write 2 put_u16_be

unfoldable pub write_u24_be : List ℕ → ℕ → Result (List ℕ)
unfolding put_u24_be
write_u24_be = write 3 put_u24_be

unfoldable pub write_u32_be : List ℕ → ℕ → Result (List ℕ)
unfolding put_u32_be
write_u32_be = write 4 put_u32_be

unfoldable pub write_u32_le : List ℕ → ℕ → Result (List ℕ)
unfolding put_u32_le
write_u32_le = write 4 put_u32_le

unfoldable pub write_u64_be : List ℕ → ℕ → Result (List ℕ)
unfolding put_u64_be
write_u64_be = write 8 put_u64_be

unfoldable pub put_u56_be : List ℕ → ℕ → Result (List ℕ)
put_u56_be (_ ∷ _ ∷ _ ∷ _ ∷ _ ∷ _ ∷ _ ∷ b) v =
    let low = byte_at 24 v ∷ byte_at 16 v ∷ byte_at 8 v ∷ byte_at 0 v ∷ b in
    ok (byte_at 48 v ∷ byte_at 40 v ∷ byte_at 32 v ∷ low)
put_u56_be _ v = panic

unfoldable pub put_u64_le : List ℕ → ℕ → Result (List ℕ)
put_u64_le (_ ∷ _ ∷ _ ∷ _ ∷ _ ∷ _ ∷ _ ∷ _ ∷ b) v =
    let high = byte_at 32 v ∷ byte_at 40 v ∷ byte_at 48 v ∷ byte_at 56 v ∷ b in
    ok (byte_at 0 v ∷ byte_at 8 v ∷ byte_at 16 v ∷ byte_at 24 v ∷ high)
put_u64_le _ v = panic

unfoldable pub write_u16_le : List ℕ → ℕ → Result (List ℕ)
unfolding put_u16_le
write_u16_le = write 2 put_u16_le

unfoldable pub write_u24_le : List ℕ → ℕ → Result (List ℕ)
unfolding put_u24_le
write_u24_le = write 3 put_u24_le

unfoldable pub write_u64_le : List ℕ → ℕ → Result (List ℕ)
unfolding put_u64_le
write_u64_le = write 8 put_u64_le
