-- ===== src/Amf/Amf3/Write.antt =====
-- utils/amf/amf3.go: the writers, each named as in Go. The `amf.Writer` is a `bytes.Buffer` at each
-- caller, whose writes do not fail; each function here returns the bytes that it appends. The numbers
-- of bytes that the Go functions return are not used by any caller.
use golive.Common.{ℕ, ◌+◌, ◌*◌, ◌%◌, ◌^◌, Bool, List, [], ◌∷◌, ◌++◌, length, if◌then◌else◌}
use golive.Common.Go.{Result, ok, err, ◌>>=◌, unsupported_type}
use golive.Common.Go.Float.{from_uint}
use golive.Common.Go.Strings.{GoString}
use golive.Amf.{Value, Fields, Items, number, boolean, text, object, array, null, undefined, date}
use golive.Amf.{integer, byte_array, end, field, nil, cons}
use golive.Amf.Write.{big64, length_items}
use golive.Amf.Amf3.U29.{write_u29}

-- `AMF3_WriteU29(w, uint32((length << 1) | 0x01))`
unfoldable pub write_length : ℕ → Result (List ℕ)
write_length n = write_u29 ((n * 2 + 1) % 2 ^ 32)

unfoldable pub amf3_write_utf8 : GoString → Result (List ℕ)
amf3_write_utf8 [] = ok (0x01 ∷ [])
amf3_write_utf8 (c ∷ str) = write_length (length (c ∷ str)) >>= λ w. ok (w ++ (c ∷ str))

unfoldable pub amf3_write_string : GoString → Result (List ℕ)
amf3_write_string str = amf3_write_utf8 str >>= λ w. ok (0x06 ∷ w)

unfoldable pub amf3_write_double : ℕ → List ℕ
amf3_write_double bits = 0x05 ∷ big64 bits []

unfoldable pub amf3_write_boolean : Bool → List ℕ
amf3_write_boolean b = if b then 0x03 ∷ [] else (0x02 ∷ [])

unfoldable pub amf3_write_null : List ℕ
amf3_write_null = 0x01 ∷ []

unfoldable pub amf3_write_undefined : List ℕ
amf3_write_undefined = 0x00 ∷ []

-- `AMF3_WriteObjectEndMarker`, and the marker with the traits flag and the empty class name.
unfoldable pub amf3_write_object_end_marker : List ℕ
amf3_write_object_end_marker = 0x01 ∷ []

unfoldable pub write_object_start : List ℕ
write_object_start = 0x0a ∷ 0x0b ∷ 0x01 ∷ []

-- `AMF3_WriteValue`. An integer is written as a double. A date is a struct, which has no case.
unfoldable mutual
  pub amf3_write_value : Value → Result (List ℕ)
  amf3_write_value (number bits) = ok (amf3_write_double bits)
  amf3_write_value (boolean b) = ok (amf3_write_boolean b)
  amf3_write_value (text s) = amf3_write_string s
  amf3_write_value (object fs) =
      amf3_write_fields fs >>= λ w. ok (write_object_start ++ (w ++ amf3_write_object_end_marker))
  amf3_write_value (array vs) = write_length (length_items vs) >>= λ n.
      amf3_write_items vs >>= λ w. ok (0x09 ∷ (n ++ (0x01 ∷ w)))
  amf3_write_value null = ok amf3_write_null
  amf3_write_value undefined = ok amf3_write_undefined
  amf3_write_value (date d) = err unsupported_type
  amf3_write_value (integer n) = ok (amf3_write_double (from_uint n))
  amf3_write_value (byte_array b) = write_length (length b) >>= λ w. ok (0x0c ∷ (w ++ b))

  -- The loops over the sorted keys of a map, and over a slice.
  pub amf3_write_fields : Fields → Result (List ℕ)
  amf3_write_fields end = ok []
  amf3_write_fields (field k v fs) = amf3_write_utf8 k >>= λ n.
      amf3_write_value v >>= λ w. amf3_write_fields fs >>= λ w'. ok (n ++ (w ++ w'))

  pub amf3_write_items : Items → Result (List ℕ)
  amf3_write_items nil = ok []
  amf3_write_items (cons v vs) =
      amf3_write_value v >>= λ w. amf3_write_items vs >>= λ w'. ok (w ++ w')
