-- ===== src/BitReader/End.antt =====
-- The bit reader at the end of its stream.
use golive.Common.{ℕ, zero, suc, ◌≤◌, ◌≡◌, refl, arith, false, []}
use golive.Common.Go.{ok, err, eof, unexpected_eof}
use golive.Common.Go.Reader.{read}
use golive.BitReader.{BitReader, read1, read1_after, peek1, read8, read_bits, peek, fill_to}
use golive.BitReader.{fill, after_fill_read, chain, checked, check_eof}

-- A reader with nothing left.
abbrev pub at_end : ℕ → BitReader
at_end buffer = record { source = []; buffer = buffer; remaining = 0 }

peek-at_end : (buffer n : ℕ) → 1 ≤ n → n ≤ 56 → peek n (at_end buffer) ≡ (err eof, at_end buffer)
unfolding peek fill_to fill after_fill_read chain read
peek-at_end buffer zero h h' = absurd (omega arith)
peek-at_end buffer (suc n) h h' = ground arith

-- At the end of the stream, with no bit left over, `Read8` of 1 to 8 bits reports the unexpected
-- end, while `Read1` returns false and no error; neither changes the reader.
pub end_of_stream :
    (buffer n : ℕ)
    → 1 ≤ n
    → n ≤ 8
    → (read8 n (at_end buffer) ≡ (err unexpected_eof, at_end buffer))
      × (read1 (at_end buffer) ≡ (ok false, at_end buffer))
unfolding read8 read_bits read1 read1_after peek1 chain checked check_eof
end_of_stream buffer n h h' = (
  rw (peek-at_end buffer n h (omega arith)) (ground arith),
  rw (peek-at_end buffer 1 (omega arith) (omega arith)) refl,
)
