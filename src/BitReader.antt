-- ===== src/BitReader.antt =====
-- utils/bitreader/bitreader.go: a stream of bits over a stream of bytes.
pub mod End
use golive.Common.{ℕ, zero, suc, ◌+◌, ◌-◌, ◌*◌, ◌/◌, ◌%◌, ◌^◌, Bool, true, false, not, ◌&&◌}
use golive.Common.{List, [], ◌∷◌, length, bit_or, bit_and, ◌==◌, ltb, leb, if◌then◌else◌}
use golive.Common.Go.{Error, Result, ok, err, panic, stuck, eof, unexpected_eof, overflow}
use golive.Common.Go.{offset_mismatch}
use golive.Common.Go.Reader.{Reader, read}

-- `buffer` is a `uint64` whose `remaining` highest bits are read next. The array `raw` is only the
-- room for one `Read`.
pub record BitReader : Type 0 where
  pub source : Reader
  pub buffer : ℕ
  pub remaining : ℕ

unfoldable pub new_reader : Reader → BitReader
new_reader r = record { source = r; buffer = 0; remaining = 0 }

-- The methods change the reader, also on the way to an error.
abbrev pub Step {ℓ} : Type ℓ → Type ℓ
Step A = Result A × BitReader

unfoldable pub chain {ℓ κ} : {A : Type ℓ} {B : Type κ} → Step A → (A → BitReader → Step B) → Step B
chain (ok a, br) f = f a br
chain (err e, br) f = (err e, br)
chain (panic, br) f = (panic, br)
chain (stuck, br) f = (stuck, br)

-- `checkEOF`
unfoldable pub check_eof : Error → Error
check_eof eof = unexpected_eof
check_eof e = e

unfoldable pub checked {ℓ} : {A : Type ℓ} → Step A → Step A
checked (err e, br) = (err (check_eof e), br)
checked (ok a, br) = (ok a, br)
checked (panic, br) = (panic, br)
checked (stuck, br) = (stuck, br)

-- The loop of `fill` from index `i`, where `ir` bits remained before it.
unfoldable pub put_in : ℕ → ℕ → List ℕ → ℕ → ℕ
put_in ir i [] buffer = buffer
put_in ir i (b ∷ raw) buffer = put_in ir (i + 1) raw (bit_or buffer (b * 2 ^ (56 - i * 8 - ir)))

unfoldable pub after_fill_read : BitReader → Result (List ℕ × Reader) → Step (Unit {0})
after_fill_read br (ok (raw, r)) = (
  ok tt,
  record {
    source = r;
    buffer = put_in br.remaining 0 raw br.buffer;
    remaining = br.remaining + 8 * length raw;
  },
)
after_fill_read br (err e) = (err e, br)
after_fill_read br panic = (panic, br)
after_fill_read br stuck = (stuck, br)

unfoldable pub fill : BitReader → Step (Unit {0})
fill br = after_fill_read br (read ((64 - br.remaining) / 8) br.source)

-- `for br.remaining < n { fill }`. A `Read` that has room returns a byte at least, so `n` rounds are
-- enough for the `n` that `peek` lets through.
unfoldable pub fill_to : ℕ → ℕ → BitReader → Step (Unit {0})
fill_to zero n br = (if leb n br.remaining then ok tt else stuck, br)
fill_to (suc fuel) n br = elim (leb n br.remaining) [
  | true ↦ (ok tt, br)
  | false ↦ chain (fill br) (λ _ br'. fill_to fuel n br')
]

unfoldable pub peek : ℕ → BitReader → Step ℕ
peek n br =
    let dist = 64 - n in
    let mask = 2 ^ 64 - 2 ^ dist in
    if ltb 56 n && not (br.remaining % 8 == 0)
    then (err offset_mismatch, br)
    else chain (fill_to n n br) (λ _ br'. (ok (bit_and br'.buffer mask / 2 ^ dist), br'))

abbrev drop_bits : ℕ → BitReader → BitReader
drop_bits len br = record br {
  buffer = br.buffer * 2 ^ len % 2 ^ 64;
  remaining = br.remaining - len;
}

-- `for n > 0 { … }`. After the first round each takes a bit at least: `n + 1` rounds are enough.
unfoldable pub skip_loop : ℕ → ℕ → BitReader → Step (Unit {0})
skip_loop fuel zero br = (ok tt, br)
skip_loop zero (suc n) br = (stuck, br)
skip_loop (suc fuel) (suc n) br =
    let len = if ltb br.remaining (suc n) then br.remaining else suc n in
    elim (suc n - len) [
      | zero ↦ (ok tt, drop_bits len br)
      | suc left ↦
          chain (checked (fill (drop_bits len br))) (λ _ br'. skip_loop fuel (suc left) br')
    ]

unfoldable pub skip : ℕ → BitReader → Step (Unit {0})
skip n br = skip_loop (n + 1) n br

unfoldable pub is_aligned : BitReader → Bool
is_aligned br = br.remaining % 8 == 0

unfoldable pub align : BitReader → Step ℕ
align br = let n = br.remaining % 8 in chain (skip n br) (λ _ br'. (ok n, br'))

unfoldable pub read_bits : ℕ → BitReader → Step ℕ
read_bits n br =
    chain (checked (peek n br)) (λ val br'. chain (skip n br') (λ _ br''. (ok val, br'')))

unfoldable pub peek1 : BitReader → Step Bool
peek1 br = chain (peek 1 br) (λ val br'. (ok (val == 1), br'))

-- An error of `Peek1` is not passed on.
unfoldable pub read1_after : Step Bool → Step Bool
read1_after (ok val, br) = chain (skip 1 br) (λ _ br'. (ok val, br'))
read1_after (err e, br) = (ok false, br)
read1_after (panic, br) = (panic, br)
read1_after (stuck, br) = (stuck, br)

unfoldable pub read1 : BitReader → Step Bool
read1 br = read1_after (peek1 br)

abbrev upto : ℕ → ℕ → (BitReader → Step ℕ) → BitReader → Step ℕ
upto limit n f br = if ltb limit n then (err overflow, br) else f br

unfoldable pub read8 : ℕ → BitReader → Step ℕ
read8 n br = upto 8 n (λ br'. checked (read_bits n br')) br

unfoldable pub read16 : ℕ → BitReader → Step ℕ
read16 n br = upto 16 n (read_bits n) br

unfoldable pub read32 : ℕ → BitReader → Step ℕ
read32 n br = upto 32 n (read_bits n) br

unfoldable pub read64 : ℕ → BitReader → Step ℕ
read64 n br = upto 64 n (read_bits n) br

unfoldable pub peek8 : ℕ → BitReader → Step ℕ
peek8 n br = upto 8 n (peek n) br

-- The limit is 8 here too.
unfoldable pub peek16 : ℕ → BitReader → Step ℕ
peek16 n br = upto 8 n (peek n) br

unfoldable pub peek32 : ℕ → BitReader → Step ℕ
peek32 n br = upto 32 n (peek n) br

unfoldable pub peek64 : ℕ → BitReader → Step ℕ
peek64 n br = upto 64 n (peek n) br
