-- ===== src/Amf/Read.antt =====
-- utils/amf/amf0.go: the readers. The `amf.Reader` is a `bytes.Reader` at each caller: the bytes
-- that are still to come, of which a `Read` gives as many as fit.
use golive.Common.{ℕ, zero, suc, ◌+◌, ◌*◌, ◌-◌, Bool, false, not, ◌&&◌, none, some}
use golive.Common.{List, [], ◌∷◌, ◌++◌, length, take, drop, replicate, ◌==◌, leb, if◌then◌else◌}
use golive.Common.Go.{Result, ok, err, stuck, ◌>>=◌, eof, unexpected_eof, type_error}
use golive.Common.Go.{unsupported_type, unknown_marker, expect_object_end, marker_object_end}
use golive.Common.Go.{object_property_exists}
use golive.Common.Go.Strings.{GoString}
use golive.ByteIo.Get.{u16_be, u32_be, u64_be}
use golive.Amf.{Value, Fields, Items, number, boolean, text, object, array, null, undefined, date}
use golive.Amf.{end, nil, cons}
use golive.Amf.Objects.{find, put}

abbrev pub Rest : Type 0
Rest = List ℕ

-- `binary.Read` of `n` bytes: it does not stop short of them.
unfoldable pub read_exact : ℕ → Rest → Result (List ℕ × Rest)
read_exact n [] = err eof
read_exact n (b ∷ r) =
    if leb n (length (b ∷ r)) then ok (take n (b ∷ r), drop n (b ∷ r)) else err unexpected_eof

-- `data := make([]byte, n); r.Read(data)` for `n > 0`: what is missing of `data` stays 0.
unfoldable pub read_once : ℕ → Rest → Result (List ℕ × Rest)
read_once n [] = err eof
read_once n (b ∷ r) = ok (take n (b ∷ r) ++ replicate (n - length (b ∷ r)) 0, drop n (b ∷ r))

-- `ReadByte`, `ReadMarker`
unfoldable pub read_byte : Rest → Result (ℕ × Rest)
read_byte [] = err eof
read_byte (b ∷ r) = ok (b, r)

unfoldable pub read_utf8 : Rest → Result (GoString × Rest)
read_utf8 r = do
  (b, r1) ← read_exact 2 r
  string_length ← u16_be b
  if string_length == 0 then ok ([], r1) else read_once string_length r1

unfoldable pub read_utf8_long : Rest → Result (GoString × Rest)
read_utf8_long r = do
  (b, r1) ← read_exact 4 r
  string_length ← u32_be b
  if string_length == 0 then ok ([], r1) else read_once string_length r1

unfoldable pub read_float : Rest → Result (ℕ × Rest)
read_float r = do (b, r1) ← read_exact 8 r; bits ← u64_be b; ok (bits, r1)

unfoldable pub read_string : Rest → Result (GoString × Rest)
read_string r = do
  (marker, r1) ← read_byte r
  if marker == 0x02
      then read_utf8 r1
      else if marker == 0x0c
      then read_utf8_long r1
      else err type_error

unfoldable pub read_double : Rest → Result (ℕ × Rest)
read_double r = do (marker, r1) ← read_byte r; if marker == 0 then read_float r1 else err type_error

-- The error of the second `ReadByte` is dropped, and the byte is then 0.
unfoldable pub byte_or_zero : Rest → Result (Bool × Rest)
byte_or_zero [] = ok (false, [])
byte_or_zero (b ∷ r) = ok (not (b == 0), r)

unfoldable pub read_boolean : Rest → Result (Bool × Rest)
read_boolean r = do
  (marker, r1) ← read_byte r
  if marker == 1 then byte_or_zero r1 else err type_error

-- The time zone is read and not used.
unfoldable pub read_date : Rest → Result (Value × Rest)
read_date r = do (bits, r1) ← read_float r; (zone, r2) ← read_exact 2 r1; ok (date bits, r2)

-- The end of an object, after the empty name.
unfoldable pub read_object_end : Fields → Rest → Result (Fields × Rest)
read_object_end obj r = do
  (b, r1) ← read_byte r
  if b == 0x09 then ok (obj, r1) else err expect_object_end

-- The markers that are a value by themselves, or none.
unfoldable pub read_simple : ℕ → Rest → Result (Value × Rest)
read_simple marker r =
    if marker == 0x00
    then (read_float r >>= λ (bits, r1). ok (number bits, r1))
    else if marker == 0x01
    then (read_byte r >>= λ (b, r1). ok (boolean (not (b == 0)), r1))
    else if marker == 0x02
    then (read_utf8 r >>= λ (s, r1). ok (text s, r1))
    else if marker == 0x05
    then ok (null, r)
    else if marker == 0x06
    then ok (undefined, r)
    else if marker == 0x09
    then err marker_object_end
    else if marker == 0x0b
    then read_date r
    else if marker == 0x0c
    then (read_utf8_long r >>= λ (s, r1). ok (text s, r1))
    else if marker == 0x04
    then err unsupported_type
    else if marker == 0x07
    then err unsupported_type
    else if leb 0x0d marker && leb marker 0x10
    then err unsupported_type
    else err unknown_marker

-- With the reader of AMF3 values, to which marker 0x11 switches.
module _ (amf3_read_value : Rest → Result (Value × Rest)) where
  -- One round of the loop of `ReadObjectProperty` after the name; `next` is the loop from its head.
  unfoldable pub read_property :
      (Rest → Result (Value × Rest))
      → (Fields → Rest → Result (Fields × Rest))
      → Fields
      → GoString
      → Rest
      → Result (Fields × Rest)
  read_property value next obj [] r = read_object_end obj r
  read_property value next obj (c ∷ name) r = elim (find (c ∷ name) obj) [
    | some old ↦ err object_property_exists
    | none ↦ value r >>= λ (v, r1). next (put (c ∷ name) v obj) r1
  ]

  -- One round of the loop of `ReadStrictArray`.
  unfoldable pub read_element :
      (Rest → Result (Value × Rest))
      → (ℕ → Rest → Result (Items × Rest))
      → ℕ
      → Rest
      → Result (Items × Rest)
  read_element value next zero r = ok (nil, r)
  read_element value next (suc count) r =
      value r >>= λ (v, r1). next count r1 >>= λ (vs, r2). ok (cons v vs, r2)

  -- The switch of `ReadValue`. `make` for a huge count of an array is not modelled.
  unfoldable pub read_marked :
      (Fields → Rest → Result (Fields × Rest))
      → (ℕ → Rest → Result (Items × Rest))
      → ℕ
      → Rest
      → Result (Value × Rest)
  read_marked properties elements marker r =
      if marker == 0x03
      then (properties end r >>= λ (obj, r1). ok (object obj, r1))
      else if marker == 0x08
      then (read_once 4 r >>= λ (len, r1). properties end r1 >>= λ (obj, r2). ok (object obj, r2))
      else if marker == 0x0a
      then (read_exact 4 r >>= λ (b, r1).
          u32_be b >>= λ array_count. elements array_count r1 >>= λ (vs, r2). ok (array vs, r2))
      else if marker == 0x11
      then amf3_read_value r
      else read_simple marker r

  -- The three loops on fuel: of values, of the properties of an object, of the elements of an array.
  unfoldable mutual
    pub read_value_loop : ℕ → Rest → Result (Value × Rest)
    read_value_loop zero r = stuck
    read_value_loop (suc fuel) r = read_byte r >>= λ (marker, r1).
        read_marked (read_property_loop fuel) (read_element_loop fuel) marker r1

    pub read_property_loop : ℕ → Fields → Rest → Result (Fields × Rest)
    read_property_loop zero obj r = stuck
    read_property_loop (suc fuel) obj r = read_utf8 r >>= λ (name, r1).
        read_property (read_value_loop fuel) (read_property_loop fuel) obj name r1

    pub read_element_loop : ℕ → ℕ → Rest → Result (Items × Rest)
    read_element_loop zero count r = stuck
    read_element_loop (suc fuel) count r =
        read_element (read_value_loop fuel) (read_element_loop fuel) count r

  unfoldable pub read_value : Rest → Result (Value × Rest)
  read_value r = read_value_loop (2 * length r + 1) r

  unfoldable pub read_object_property : Rest → Result (Fields × Rest)
  read_object_property r = read_property_loop (2 * length r + 2) end r

  unfoldable pub read_object : Rest → Result (Fields × Rest)
  read_object r = do
    (marker, r1) ← read_byte r
    if marker == 0x03 then read_object_property r1 else err type_error
