-- ===== src/Amf/Values.antt =====
-- The round trip of utils/amf/amf0.go at single values, as the messages of RTMP hold them.
use golive.Common.{ℕ, ◌^◌, ◌<◌, ◌≡◌, refl, ap, sym, ◌∙◌, List, [], ◌++◌, length}
use golive.Common.Go.{Result, ok, err, eof}
use golive.Common.Go.Strings.{GoString}
use golive.Amf.{Value, number, text, null}
use golive.Amf.Read.{Rest, read_value, read_value_loop, read_byte}
use golive.Amf.Write.{write_value, write_string, write_double, write_null}
use golive.Amf.RoundTrip.{IsWritable, decoded, read_value-write_value}

abbrev content : Result (List ℕ) → List ℕ
content (ok w) = w
content _ = []

module _ (amf3 : Rest → Result (Value × Rest)) where
  pub read_value_end : read_value amf3 [] ≡ err eof
  unfolding read_value read_value_loop read_byte
  read_value_end = refl

  pub reads_written :
      (v : Value) (w rest : List ℕ)
      → IsWritable v
      → write_value v ≡ ok w
      → read_value amf3 (w ++ rest) ≡ ok (decoded v, rest)
  reads_written v w rest h e =
      let (w', e', r) = read_value-write_value amf3 v rest h in
      ap (λ x. read_value amf3 (x ++ rest)) (ap content (sym e ∙ e')) ∙ r

  pub reads_text :
      (s : GoString) (rest : List ℕ)
      → length s < 2 ^ 32
      → read_value amf3 (write_string s ++ rest) ≡ ok (text s, rest)
  unfolding write_value IsWritable decoded
  reads_text s rest h = reads_written (text s) (write_string s) rest h refl

  pub reads_number :
      (n : ℕ) (rest : List ℕ)
      → n < 2 ^ 64
      → read_value amf3 (write_double n ++ rest) ≡ ok (number n, rest)
  unfolding write_value IsWritable decoded
  reads_number n rest h = reads_written (number n) (write_double n) rest h refl

  pub reads_null : (rest : List ℕ) → read_value amf3 (write_null ++ rest) ≡ ok (null, rest)
  unfolding write_value IsWritable decoded
  reads_null rest = reads_written null write_null rest tt refl
