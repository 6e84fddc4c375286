-- ===== src/Amf/Amf3/Pieces.antt =====
-- utils/amf/amf3.go: each kind of value, and each entry of an object, is read back from what is written.
use golive.Common.{
  Bool, arith, ℕ, zero, suc, ◌+◌, ◌*◌, ◌/◌, ◌%◌, ◌^◌, ◌<◌, ◌≡◌, refl, ap, sym, ◌∙◌, List, [], ◌∷◌,
  ◌++◌, length, length-append, append_assoc,
}
use golive.Common.{take-append_length, drop-append_length, leb, true, false, ◌==◌}
use golive.Common.Go.{Result, ok}
use golive.Common.Go.Float.{from_uint}
use golive.Common.Go.Strings.{GoString}
use golive.Amf.{Value, Fields, number, boolean, text, object, array, null, undefined, date}
use golive.Amf.{integer, byte_array, end, field}
use golive.Amf.Objects.{put}
use golive.Amf.Read.{Rest, read_byte}
use golive.Amf.Entries.{suc_nonzero, Fresh, put_all, read_once-append, read_float-append}
use golive.Amf.Keys.{Sorted}
use golive.Amf.Amf3.U29.{read_u29_loop, write_u29, read_u29, read_u29-write_u29}
use golive.Amf.Amf3.Read.{
  amf3_read_utf8, read_buffer, byte_array_body, amf3_property, amf3_read_marked, amf3_value_loop,
  amf3_property_loop,
}
use golive.Amf.Amf3.Write.{
  write_length, amf3_write_utf8, amf3_write_string, amf3_write_double, amf3_write_boolean,
  amf3_write_null, amf3_write_undefined, amf3_write_object_end_marker, amf3_write_value,
  amf3_write_fields,
}

-- What a value reads back as: an integer becomes a double.
unfoldable mutual
  pub amf3_decoded : Value → Value
  amf3_decoded (number bits) = number bits
  amf3_decoded (boolean b) = boolean b
  amf3_decoded (text s) = text s
  amf3_decoded (object fs) = object (amf3_decoded_fields fs)
  amf3_decoded (array vs) = array vs
  amf3_decoded null = null
  amf3_decoded undefined = undefined
  amf3_decoded (date d) = date d
  amf3_decoded (integer n) = number (from_uint n)
  amf3_decoded (byte_array b) = byte_array b

  pub amf3_decoded_fields : Fields → Fields
  amf3_decoded_fields end = end
  amf3_decoded_fields (field k v fs) = field k (amf3_decoded v) (amf3_decoded_fields fs)

-- A length that is written in 29 bits with the flag of a value that is no reference.
abbrev pub IsLength : ℕ → Type 0
IsLength n = n < 2 ^ 28

-- The values that can be written and read: no date, no array, no empty byte array, lengths of their
-- width, and in objects names that are not empty, in their order.
unfoldable mutual
  pub IsReadable : Value → Type 0
  IsReadable (number bits) = bits < 2 ^ 64
  IsReadable (boolean b) = Unit {0}
  IsReadable (text s) = IsLength (length s)
  IsReadable (object fs) = Sorted fs × AreReadable fs
  IsReadable (array vs) = ⊥
  IsReadable null = Unit {0}
  IsReadable undefined = Unit {0}
  IsReadable (date d) = ⊥
  IsReadable (integer n) = from_uint n < 2 ^ 64
  IsReadable (byte_array b) = (0 < length b) × IsLength (length b)

  pub AreReadable : Fields → Type 0
  AreReadable end = Unit {0}
  AreReadable (field k v fs) =
      ((0 < length k) × IsLength (length k)) × IsReadable v × AreReadable fs

pub Sorted-decoded : (fs : Fields) → Sorted fs → Sorted (amf3_decoded_fields fs)
unfolding amf3_decoded
Sorted-decoded end h = tt
Sorted-decoded (field k v end) h = tt
Sorted-decoded (field k v (field k' v' fs)) (b, h) = (b, Sorted-decoded (field k' v' fs) h)

abbrev content : Result (List ℕ) → List ℕ
content (ok w) = w
content _ = []

-- The bytes of a length, whatever follows them.
pub length-Reads :
    (n : ℕ)
    → IsLength n
    → (w : List ℕ) × (write_length n ≡ ok w)
      × ((rest : Rest) → read_u29 (w ++ rest) ≡ ok (n * 2 + 1, rest))
unfolding write_length
length-Reads n h =
    let width : (n * 2 + 1) % 2 ^ 32 ≡ n * 2 + 1 = omega arith in
    let (w, e, r, b, b') = read_u29-write_u29 (n * 2 + 1) [] (omega arith) in
    (
      w,
      ap write_u29 width ∙ e,
      λ rest.
          let (w', e', r', c, c') = read_u29-write_u29 (n * 2 + 1) rest (omega arith) in
          ap (λ x. read_u29 (content x ++ rest)) (sym e ∙ e') ∙ r',
    )

odd_flag : (n : ℕ) → ((n * 2 + 1) % 2 == 1) ≡ true
odd_flag n = ground arith

half : (n : ℕ) → (n * 2 + 1) / 2 ≡ n
half n = omega arith

pub utf8-Reads :
    (s : GoString)
    → IsLength (length s)
    → (w : List ℕ) × (amf3_write_utf8 s ≡ ok w)
      × (0 < length w)
      × ((rest : Rest) → amf3_read_utf8 (w ++ rest) ≡ ok (s, rest))
unfolding amf3_write_utf8 amf3_read_utf8 read_u29 read_u29_loop read_byte
utf8-Reads [] h = (0x01 ∷ [], refl, omega arith, λ rest. refl)
utf8-Reads (c ∷ s) h =
    let (w, e, r) = length-Reads (length (c ∷ s)) h in
    (
      w ++ (c ∷ s),
      rw e refl,
      omega (arith, length-append w (c ∷ s)),
      λ rest.
          rw
            (
              append_assoc w (c ∷ s) rest,
              r ((c ∷ s) ++ rest),
              odd_flag (length (c ∷ s)),
              half (length (c ∷ s)),
              suc_nonzero (length s),
            )
            (read_once-append (c ∷ s) rest (omega arith)),
    )

-- The bytes `w` are read as `v`, within fuel for twice their number.
abbrev pub ValueReads : List ℕ → Value → Type 0
ValueReads w v =
    (fuel : ℕ) (rest : List ℕ)
    → 2 * length w < fuel
    → amf3_value_loop fuel (w ++ rest) ≡ ok (v, rest)

-- The bytes `w` are read as the properties `fs`, with the end of the object, by the loop that has
-- read `acc`.
abbrev pub EntriesRead : List ℕ → Fields → Type 0
EntriesRead w fs =
    (fuel : ℕ) (acc : Fields) (rest : List ℕ)
    → 2 * length w < fuel
    → Fresh acc fs
    → amf3_property_loop fuel acc (w ++ rest) ≡ ok (put_all acc fs, rest)

-- Written without an error, as bytes that are read back.
abbrev pub RoundTrips : Value → Type 0
RoundTrips v = (w : List ℕ) × (amf3_write_value v ≡ ok w) × ValueReads w (amf3_decoded v)

abbrev pub Entries : Fields → Type 0
Entries fs =
    (w : List ℕ) × (amf3_write_fields fs ≡ ok w)
    × EntriesRead (w ++ amf3_write_object_end_marker) (amf3_decoded_fields fs)

pub number-RoundTrips :
    (bits : ℕ) → bits < 2 ^ 64 → ValueReads (amf3_write_double bits) (number bits)
unfolding amf3_write_double amf3_value_loop read_byte amf3_read_marked
number-RoundTrips bits h zero rest f = absurd (omega arith)
number-RoundTrips bits h (suc fuel) rest f = rw (read_float-append bits rest h) refl

pub boolean-RoundTrips : (b : Bool) → ValueReads (amf3_write_boolean b) (boolean b)
unfolding amf3_write_boolean amf3_value_loop read_byte amf3_read_marked
boolean-RoundTrips b zero rest f = absurd (omega arith)
boolean-RoundTrips true (suc fuel) rest f = refl
boolean-RoundTrips false (suc fuel) rest f = refl

pub null-RoundTrips : ValueReads amf3_write_null null
unfolding amf3_write_null amf3_value_loop read_byte amf3_read_marked
null-RoundTrips zero rest f = absurd (omega arith)
null-RoundTrips (suc fuel) rest f = refl

pub undefined-RoundTrips : ValueReads amf3_write_undefined undefined
unfolding amf3_write_undefined amf3_value_loop read_byte amf3_read_marked
undefined-RoundTrips zero rest f = absurd (omega arith)
undefined-RoundTrips (suc fuel) rest f = refl

pub text-RoundTrips : (s : GoString) → IsLength (length s) → RoundTrips (text s)
unfolding amf3_write_value amf3_write_string amf3_decoded amf3_value_loop read_byte amf3_read_marked
text-RoundTrips s h =
    let (w, e, p, r) = utf8-Reads s h in (0x06 ∷ w, rw e refl, λ fuel rest f. go w r fuel rest f)
  where
    go :
        (w : List ℕ)
        → ((rest : Rest) → amf3_read_utf8 (w ++ rest) ≡ ok (s, rest))
        → ValueReads (0x06 ∷ w) (text s)
    go w r zero rest f = absurd (omega arith)
    go w r (suc fuel) rest f = rw (r rest) refl

read_buffer-append :
    (b rest : List ℕ) → 0 < length b → read_buffer (length b) (b ++ rest) ≡ ok (b, rest)
unfolding read_buffer
read_buffer-append [] rest h = absurd (omega arith)
read_buffer-append (x ∷ b) rest h =
    let fits : leb (length (x ∷ b)) (length (x ∷ (b ++ rest))) ≡ true =
      ground (arith, length-append b rest) in
    rw (fits, take-append_length b rest, drop-append_length b rest) refl

pub byte_array-RoundTrips :
    (b : List ℕ) → 0 < length b → IsLength (length b) → RoundTrips (byte_array b)
unfolding amf3_write_value amf3_decoded amf3_value_loop read_byte amf3_read_marked byte_array_body
byte_array-RoundTrips b some_bytes h =
    let (w, e, r) = length-Reads (length b) h in
    (0x0c ∷ (w ++ b), rw e refl, λ fuel rest f. go w r fuel rest f)
  where
    go :
        (w : List ℕ)
        → ((rest : Rest) → read_u29 (w ++ rest) ≡ ok (length b * 2 + 1, rest))
        → ValueReads (0x0c ∷ (w ++ b)) (byte_array b)
    go w r zero rest f = absurd (omega arith)
    go w r (suc fuel) rest f =
        rw
          (
            append_assoc w b rest,
            r (b ++ rest),
            odd_flag (length b),
            half (length b),
            read_buffer-append b rest some_bytes,
          )
          refl

pub end-EntriesRead : EntriesRead amf3_write_object_end_marker end
unfolding amf3_write_object_end_marker amf3_property_loop amf3_property amf3_read_utf8 read_u29
    read_u29_loop read_byte
end-EntriesRead zero acc rest h f = absurd (omega arith)
end-EntriesRead (suc fuel) acc rest h f = refl

pub field-EntriesRead :
    (k : GoString) (v : Value) (fs : Fields) (wk wv w : List ℕ)
    → 0 < length k
    → 0 < length wk
    → ((rest : Rest) → amf3_read_utf8 (wk ++ rest) ≡ ok (k, rest))
    → ValueReads wv v
    → EntriesRead w fs
    → EntriesRead (wk ++ (wv ++ w)) (field k v fs)
unfolding amf3_property_loop amf3_property
field-EntriesRead [] v fs wk wv w n p rk rv rw' fuel acc rest h f = absurd (omega arith)
field-EntriesRead (c ∷ k) v fs wk wv w n p rk rv rw' zero acc rest h f = absurd (omega arith)
field-EntriesRead (c ∷ k) v fs wk wv w n p rk rv rw' (suc fuel) acc rest h f =
    let size : 2 * (1 + (length wv + length w)) < suc fuel =
      omega (arith, h, p, length-append wk (wv ++ w), length-append wv w) in
    rw
      (
        append_assoc wk (wv ++ w) rest,
        append_assoc wv w rest,
        rk (wv ++ (w ++ rest)),
        amf3_property,
        f.0,
        rv fuel (w ++ rest) (omega (arith, size)),
      )
      (rw' fuel (put (c ∷ k) v acc) rest (omega (arith, size)) f.1)
