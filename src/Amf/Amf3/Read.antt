-- ===== src/Amf/Amf3/Read.antt =====
-- utils/amf/amf3.go: the readers, each named as in Go. The `amf.Reader` is a `bytes.Reader` at each
-- caller.
use golive.Common.{ℕ, zero, suc, ◌+◌, ◌*◌, ◌/◌, ◌%◌, false, true, not, none, some, List, [], ◌∷◌}
use golive.Common.{length, take, drop, ◌==◌, leb, if◌then◌else◌}
use golive.Common.Go.{Result, ok, err, stuck, ◌>>=◌, eof, type_error, unsupported_type}
use golive.Common.Go.{unknown_marker, object_property_exists, reference_unsupported, wrong_size}
use golive.Common.Go.Strings.{GoString}
use golive.Amf.{Value, Fields, number, boolean, text, object, null, undefined, integer, byte_array}
use golive.Amf.{end}
use golive.Amf.Objects.{find, put}
use golive.Amf.Read.{Rest, read_byte, read_once, read_float}
use golive.Amf.Amf3.U29.{read_u29}

unfoldable pub amf3_read_utf8 : Rest → Result (GoString × Rest)
amf3_read_utf8 r = do
  (n, r1) ← read_u29 r
  if not (n % 2 == 1)
      then err reference_unsupported
      else if n / 2 == 0
      then ok ([], r1)
      else read_once (n / 2) r1

-- A marker that must be `m`, before `read`.
abbrev after_marker : {A : Type 0} → ℕ → (Rest → Result A) → Rest → Result A
after_marker m read r =
    read_byte r >>= λ (marker, r1). if marker == m then read r1 else err type_error

unfoldable pub amf3_read_string : Rest → Result (GoString × Rest)
amf3_read_string r = after_marker 0x06 amf3_read_utf8 r

unfoldable pub amf3_read_integer : Rest → Result (ℕ × Rest)
amf3_read_integer r = after_marker 0x04 read_u29 r

unfoldable pub amf3_read_double : Rest → Result (ℕ × Rest)
amf3_read_double r = after_marker 0x05 read_float r

-- `r.Read(buf)` and the test of the number of bytes. At its end the reader gives `EOF`, for no bytes
-- too.
unfoldable pub read_buffer : ℕ → Rest → Result (List ℕ × Rest)
read_buffer n [] = err eof
read_buffer n (b ∷ r) =
    if leb n (length (b ∷ r)) then ok (take n (b ∷ r), drop n (b ∷ r)) else err wrong_size

-- `AMF3_readByteArray`
unfoldable pub byte_array_body : Rest → Result (List ℕ × Rest)
byte_array_body r = do
  (n, r1) ← read_u29 r
  if not (n % 2 == 1) then err unsupported_type else read_buffer (n / 2) r1

unfoldable pub amf3_read_byte_array : Rest → Result (List ℕ × Rest)
amf3_read_byte_array r = after_marker 0x0c byte_array_body r

-- The traits flag and the empty class name.
unfoldable pub read_traits : Rest → Result Rest
read_traits r = do
  (b, r1) ← read_byte r
  if not (b == 0x0b)
      then err unsupported_type
      else (read_byte r1 >>= λ (c, r2). if c == 0x01 then ok r2 else err unsupported_type)

-- One round of the loop of `AMF3_ReadObjectProperty` after the name; `next` is the loop from its
-- head.
unfoldable pub amf3_property :
    (Rest → Result (Value × Rest))
    → (Fields → Rest → Result (Fields × Rest))
    → Fields
    → GoString
    → Rest
    → Result (Fields × Rest)
amf3_property value next obj [] r = ok (obj, r)
amf3_property value next obj (c ∷ name) r = elim (find (c ∷ name) obj) [
  | some old ↦ err object_property_exists
  | none ↦ value r >>= λ (v, r1). next (put (c ∷ name) v obj) r1
]

-- The switch of `AMF3_ReadValue`. An array is an unknown marker.
unfoldable pub amf3_read_marked :
    (Fields → Rest → Result (Fields × Rest)) → ℕ → Rest → Result (Value × Rest)
amf3_read_marked properties marker r =
    if marker == 0x00
    then ok (undefined, r)
    else if marker == 0x01
    then ok (null, r)
    else if marker == 0x02
    then ok (boolean false, r)
    else if marker == 0x03
    then ok (boolean true, r)
    else if marker == 0x04
    then (read_u29 r >>= λ (n, r1). ok (integer n, r1))
    else if marker == 0x05
    then (read_float r >>= λ (bits, r1). ok (number bits, r1))
    else if marker == 0x06
    then (amf3_read_utf8 r >>= λ (s, r1). ok (text s, r1))
    else if marker == 0x0a
    then (read_traits r >>= λ r1. properties end r1 >>= λ (obj, r2). ok (object obj, r2))
    else if marker == 0x0c
    then (byte_array_body r >>= λ (b, r1). ok (byte_array b, r1))
    else err unknown_marker

-- The two loops on fuel: of values, and of the properties of an object.
unfoldable mutual
  pub amf3_value_loop : ℕ → Rest → Result (Value × Rest)
  amf3_value_loop zero r = stuck
  amf3_value_loop (suc fuel) r =
      read_byte r >>= λ (marker, r1). amf3_read_marked (amf3_property_loop fuel) marker r1

  pub amf3_property_loop : ℕ → Fields → Rest → Result (Fields × Rest)
  amf3_property_loop zero obj r = stuck
  amf3_property_loop (suc fuel) obj r = amf3_read_utf8 r >>= λ (name, r1).
      amf3_property (amf3_value_loop fuel) (amf3_property_loop fuel) obj name r1

unfoldable pub amf3_read_value : Rest → Result (Value × Rest)
amf3_read_value r = amf3_value_loop (2 * length r + 1) r

unfoldable pub amf3_read_object_property : Rest → Result (Fields × Rest)
amf3_read_object_property r = read_traits r >>= λ r1. amf3_property_loop (2 * length r1 + 2) end r1

unfoldable pub amf3_read_object : Rest → Result (Fields × Rest)
amf3_read_object r = after_marker 0x0a amf3_read_object_property r
