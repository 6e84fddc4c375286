-- ===== src/Amf/Write.antt =====
-- utils/amf/amf0.go, amftools.go: the writers. The `amf.Writer` is a `bytes.Buffer` at each caller,
-- whose writes do not fail; each function here returns the bytes that it appends. The numbers of
-- bytes that the Go functions return are not used by any caller.
use golive.Common.{ℕ, suc, ◌+◌, ◌%◌, ◌^◌, Bool, List, [], ◌∷◌, ◌++◌, length, ltb}
use golive.Common.{if◌then◌else◌}
use golive.Common.Go.{Result, ok, panic, stuck, ◌>>=◌}
use golive.Common.Go.Strings.{GoString}
use golive.ByteIo.Put.{byte_at}
use golive.Amf.{
  Value, Fields, Items, number, boolean, text, object, array, null, undefined, date, integer,
  byte_array,
}
use golive.Common.Go.Float.{from_uint}
use golive.Amf.{end, field, nil, cons}
use golive.Amf.Decimal.{decimal}

-- `binary.Write` of integers of 16, 32 and 64 bits
abbrev pub big16 : ℕ → List ℕ → List ℕ
big16 v rest = byte_at 8 v ∷ byte_at 0 v ∷ rest

abbrev pub big32 : ℕ → List ℕ → List ℕ
big32 v rest = byte_at 24 v ∷ byte_at 16 v ∷ big16 v rest

abbrev pub big64 : ℕ → List ℕ → List ℕ
big64 v rest = byte_at 56 v ∷ byte_at 48 v ∷ byte_at 40 v ∷ byte_at 32 v ∷ big32 v rest

unfoldable pub write_utf8 : GoString → ℕ → List ℕ
write_utf8 s len = big16 len s

unfoldable pub write_utf8_long : GoString → ℕ → List ℕ
write_utf8_long s len = big32 len s

unfoldable pub write_string : GoString → List ℕ
write_string str =
    let len = length str % 2 ^ 32 in
    if ltb 0xffff len then 0x0c ∷ write_utf8_long str len else 0x02 ∷ write_utf8 str len

unfoldable pub write_double : ℕ → List ℕ
write_double bits = 0x00 ∷ big64 bits []

unfoldable pub write_boolean : Bool → List ℕ
write_boolean b = 0x01 ∷ (if b then 1 else 0) ∷ []

unfoldable pub write_null : List ℕ
write_null = 0x05 ∷ []

unfoldable pub write_object_marker : List ℕ
write_object_marker = 0x03 ∷ []

unfoldable pub write_object_end_marker : List ℕ
write_object_end_marker = 0x00 ∷ 0x00 ∷ 0x09 ∷ []

-- `uint16(len(name))`
unfoldable pub write_object_name : GoString → List ℕ
write_object_name name = write_utf8 name (length name % 2 ^ 16)

-- The elements of a byte array, each a `uint8`.
unfoldable pub write_bytes : ℕ → List ℕ → List ℕ
write_bytes index [] = []
write_bytes index (b ∷ bs) =
    write_object_name (decimal index) ++ (write_double (from_uint b) ++ write_bytes (index + 1) bs)

unfoldable pub length_items : Items → ℕ
length_items nil = 0
length_items (cons v vs) = suc (length_items vs)

-- `WriteValue`. `Undefined` is a struct without fields, so that the case of structs takes it and the
-- test for `Undefined` after the switch is not met. A `time.Time` is never written by the
-- program; its fields, which `WriteStruct` would write, are not in the source, and the model is
-- `stuck` there.
unfoldable mutual
  pub write_value : Value → Result (List ℕ)
  write_value (number bits) = ok (write_double bits)
  write_value (boolean b) = ok (write_boolean b)
  write_value (text s) = ok (write_string s)
  write_value (object fs) =
      write_properties fs >>= λ w. ok (write_object_marker ++ (w ++ write_object_end_marker))
  write_value (array vs) = write_elements 0 vs >>= λ w.
      ok (0x08 ∷ big32 (length_items vs) (w ++ write_object_end_marker))
  write_value null = ok write_null
  write_value undefined = ok (write_object_marker ++ write_object_end_marker)
  write_value (date d) = stuck
  write_value (integer n) = ok (write_double (from_uint n))
  write_value (byte_array b) =
      ok (0x08 ∷ big32 (length b) (write_bytes 0 b ++ write_object_end_marker))

  pub write_properties : Fields → Result (List ℕ)
  write_properties end = ok []
  write_properties (field k v fs) =
      write_value v >>= λ w. write_properties fs >>= λ w'. ok (write_object_name k ++ (w ++ w'))

  pub write_elements : ℕ → Items → Result (List ℕ)
  write_elements index nil = ok []
  write_elements index (cons v vs) = write_value v >>= λ w.
      write_elements (index + 1) vs >>= λ w'. ok (write_object_name (decimal index) ++ (w ++ w'))

-- `WriteArrayAsSiblingButElemArrayAsArray`
unfoldable pub write_siblings : Items → Result (List ℕ)
write_siblings nil = ok []
write_siblings (cons v vs) = write_value v >>= λ w. write_siblings vs >>= λ w'. ok (w ++ w')

-- The elements of an array in pairs, as names and values. `v.Index(i).Interface().(string)` panics
-- where a name is no string, and `v.Index(i+1)` where there is no value.
unfoldable pub write_pairs : Items → Result (List ℕ)
write_pairs nil = ok []
write_pairs (cons (text name) (cons v vs)) =
    write_value v >>= λ w. write_pairs vs >>= λ w'. ok (write_object_name name ++ (w ++ w'))
write_pairs _ = panic

-- One element for `WriteArrayAsSiblingButElemArrayAsObject`.
unfoldable pub write_element_as_object : Value → Result (List ℕ)
write_element_as_object (array vs) =
    write_pairs vs >>= λ w. ok (write_object_marker ++ (w ++ write_object_end_marker))
write_element_as_object (byte_array []) = ok (write_object_marker ++ write_object_end_marker)
write_element_as_object (byte_array (_ ∷ _)) = panic
write_element_as_object v = write_value v

unfoldable pub write_siblings_as_objects : Items → Result (List ℕ)
write_siblings_as_objects nil = ok []
write_siblings_as_objects (cons v vs) =
    write_element_as_object v >>= λ w. write_siblings_as_objects vs >>= λ w'. ok (w ++ w')
