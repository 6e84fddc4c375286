-- ===== src/Amf/RoundTrip.antt =====
-- AMF0 values that `WriteValue` writes, read by `ReadValue`.
use golive.Common.{ℕ, zero, suc, ◌+◌, ◌*◌, ◌%◌, ◌^◌, ◌<◌, ◌≤◌, ◌≡◌, refl, ◌∙◌, arith}
use golive.Common.{Bool, true, false, none, List, [], ◌∷◌, ◌++◌, length, append_assoc}
use golive.Common.{length-append, ltb, Bool-cases, inl, inr}
use golive.Common.Go.{Result, ok}
use golive.Common.Go.Strings.{GoString}
use golive.Common.Go.Float.{from_uint}
use golive.Amf.{
  integer, byte_array, Value, Fields, Items, number, boolean, text, object, array, null, undefined,
  date,
}
use golive.Amf.{end, field, nil, cons}
use golive.Amf.Objects.{find, put}
use golive.Amf.Objects.{find-put_ne}
use golive.Amf.Read.{Rest, read_value, read_value_loop, read_marked, read_simple, read_byte}
use golive.Amf.Write.{big16, big32, write_value, write_properties, write_elements, write_string}
use golive.Amf.Write.{write_double, write_boolean, write_null, write_object_marker, write_utf8}
use golive.Amf.Write.{write_utf8_long, write_object_end_marker, write_object_name, length_items}
use golive.Amf.Decimal.{decimal, decimal_ne, length-decimal, decimal_pos}
use golive.Amf.Keys.{Sorted, Sorted-Fresh, put_all-Sorted}
use golive.Amf.Entries.{IsName, Fresh, put_all, ValueReads, EntriesRead, end-EntriesRead}
use golive.Amf.Entries.{field-EntriesRead, read_utf8-append, read_utf8_long-append}
use golive.Amf.Entries.{read_float-append, read_once-append}

-- What a value reads back as: arrays become objects with the positions for names, and `Undefined`
-- becomes an empty object.
unfoldable mutual
  pub decoded : Value → Value
  decoded (number bits) = number bits
  decoded (boolean b) = boolean b
  decoded (text s) = text s
  decoded (object fs) = object (decoded_fields fs)
  decoded (array vs) = object (put_all end (decoded_items 0 vs))
  decoded null = null
  decoded undefined = object end
  decoded (date d) = date d
  decoded (integer n) = number (from_uint n)
  decoded (byte_array b) = byte_array b

  pub decoded_fields : Fields → Fields
  decoded_fields end = end
  decoded_fields (field k v fs) = field k (decoded v) (decoded_fields fs)

  pub decoded_items : ℕ → Items → Fields
  decoded_items index nil = end
  decoded_items index (cons v vs) = field (decimal index) (decoded v) (decoded_items (index + 1) vs)

-- The values that can be written: no date and no byte array, numbers and lengths of their widths, and in objects
-- names that can be written, in the order of a map's canonical form.
unfoldable mutual
  pub IsWritable : Value → Type 0
  IsWritable (number bits) = bits < 2 ^ 64
  IsWritable (boolean b) = Unit {0}
  IsWritable (text s) = length s < 2 ^ 32
  IsWritable (object fs) = Sorted fs × AreWritable fs
  IsWritable (array vs) = (length_items vs < 2 ^ 31) × AllWritable vs
  IsWritable null = Unit {0}
  IsWritable undefined = Unit {0}
  IsWritable (date d) = ⊥
  IsWritable (integer n) = from_uint n < 2 ^ 64
  IsWritable (byte_array b) = ⊥

  pub AreWritable : Fields → Type 0
  AreWritable end = Unit {0}
  AreWritable (field k v fs) = IsName k × IsWritable v × AreWritable fs

  pub AllWritable : Items → Type 0
  AllWritable nil = Unit {0}
  AllWritable (cons v vs) = IsWritable v × AllWritable vs

-- Decoding keeps the keys.
Sorted-decoded : (fs : Fields) → Sorted fs → Sorted (decoded_fields fs)
unfolding decoded
Sorted-decoded end h = tt
Sorted-decoded (field k v end) h = tt
Sorted-decoded (field k v (field k' v' fs)) (b, h) = (b, Sorted-decoded (field k' v' fs) h)

-- No name of an element from `i` on is taken.
abbrev Unused : Fields → ℕ → Type 0
Unused acc i = (j : ℕ) → i ≤ j → find (decimal j) acc ≡ none

items-Fresh : (acc : Fields) (i : ℕ) (vs : Items) → Unused acc i → Fresh acc (decoded_items i vs)
unfolding decoded
items-Fresh acc i nil u = tt
items-Fresh acc i (cons v vs) u = (
  u i (omega arith),
  items-Fresh (put (decimal i) (decoded v) acc) (i + 1) vs (λ j h.
      find-put_ne (decimal i) (decimal j) (decoded v) acc (decimal_ne i j (λ e. omega arith))
      ∙ u j (omega arith)),
)

-- Written without an error, as bytes that are read back.
abbrev RoundTrips : (Rest → Result (Value × Rest)) → Value → Type 0
RoundTrips amf3 v = (w : List ℕ) × (write_value v ≡ ok w) × ValueReads amf3 w (decoded v)

module _ (amf3 : Rest → Result (Value × Rest)) where
  number-RoundTrips : (bits : ℕ) → bits < 2 ^ 64 → RoundTrips amf3 (number bits)
  unfolding write_value write_double decoded read_value_loop read_byte read_marked read_simple
  number-RoundTrips bits h = (_, refl, λ fuel rest f. go fuel rest f)
    where
      go : ValueReads amf3 (write_double bits) (number bits)
      go zero rest f = absurd (omega arith)
      go (suc fuel) rest f = rw (read_float-append bits rest h) refl

  text_short :
      (s : GoString) → length s < 2 ^ 16 → ValueReads amf3 (0x02 ∷ big16 (length s) s) (text s)
  unfolding read_value_loop read_byte read_marked read_simple
  text_short s h zero rest f = absurd (omega arith)
  text_short s h (suc fuel) rest f = rw (read_utf8-append s rest h) refl

  text_long :
      (s : GoString) → length s < 2 ^ 32 → ValueReads amf3 (0x0c ∷ big32 (length s) s) (text s)
  unfolding read_value_loop read_byte read_marked read_simple
  text_long s h zero rest f = absurd (omega arith)
  text_long s h (suc fuel) rest f = rw (read_utf8_long-append s rest h) refl

  -- An object from its marker on, or an array from its count on.
  object-ValueReads :
      (w : List ℕ) (fs : Fields)
      → EntriesRead amf3 w fs
      → Fresh end fs
      → ValueReads amf3 (0x03 ∷ w) (object (put_all end fs))
  unfolding read_value_loop read_byte read_marked
  object-ValueReads w fs r fresh zero rest f = absurd (omega arith)
  object-ValueReads w fs r fresh (suc fuel) rest f = rw (r fuel end rest (omega arith) fresh) refl

  array-ValueReads :
      (n : ℕ) (w : List ℕ) (fs : Fields)
      → EntriesRead amf3 w fs
      → Fresh end fs
      → ValueReads amf3 (0x08 ∷ big32 n w) (object (put_all end fs))
  unfolding read_value_loop read_byte read_marked
  array-ValueReads n w fs r fresh zero rest f = absurd (omega arith)
  array-ValueReads n w fs r fresh (suc fuel) rest f =
      rw
        (
          read_once-append (big32 n []) (w ++ rest) (omega arith),
          r fuel end rest (omega arith) fresh,
        )
        refl

  boolean-ValueReads : (b : Bool) → ValueReads amf3 (write_boolean b) (boolean b)
  unfolding write_boolean read_value_loop read_byte read_marked read_simple
  boolean-ValueReads b zero rest f = absurd (omega arith)
  boolean-ValueReads true (suc fuel) rest f = refl
  boolean-ValueReads false (suc fuel) rest f = refl

  single-ValueReads :
      (m : ℕ) (v : Value)
      → ((r : Rest) → read_simple m r ≡ ok (v, r))
      → 3 < m
      → m < 8
      → ValueReads amf3 (m ∷ []) v
  unfolding read_value_loop read_byte read_marked
  single-ValueReads m v h lo hi zero rest f = absurd (omega arith)
  single-ValueReads m v h lo hi (suc fuel) rest f = ground (arith, h rest)

  text-RoundTrips : (s : GoString) → length s < 2 ^ 32 → RoundTrips amf3 (text s)
  unfolding write_value write_string write_utf8 write_utf8_long decoded
  text-RoundTrips s h =
      let len : length s % 2 ^ 32 ≡ length s = omega arith in
      elim (Bool-cases (ltb 0xffff (length s))) [
        | inl long ↦ (0x0c ∷ big32 (length s) s, rw (len, long) refl, text_long s h)
        | inr short ↦ (0x02 ∷ big16 (length s) s, rw (len, short) refl, text_short s (ground arith))
      ]

  -- A field or an element written before entries that are read.
  entry-reads :
      (k : GoString) (v : Value) (fs : Fields) (wv w : List ℕ)
      → IsName k
      → ValueReads amf3 wv v
      → EntriesRead amf3 (w ++ write_object_end_marker) fs
      → EntriesRead amf3
          ((write_object_name k ++ (wv ++ w)) ++ write_object_end_marker)
          (field k v fs)
  entry-reads k v fs wv w n rv re =
      rw
        (
          append_assoc (write_object_name k) (wv ++ w) write_object_end_marker,
          append_assoc wv w write_object_end_marker,
        )
        (field-EntriesRead amf3 k v fs wv (w ++ write_object_end_marker) n rv re)

  abbrev Entries : Result (List ℕ) → Fields → Type 0
  Entries written fs =
      (w : List ℕ) × (written ≡ ok w) × EntriesRead amf3 (w ++ write_object_end_marker) fs

  boolean-RoundTrips : (b : Bool) → RoundTrips amf3 (boolean b)
  unfolding write_value write_boolean decoded
  boolean-RoundTrips b = (_, refl, boolean-ValueReads b)

  null-RoundTrips : RoundTrips amf3 null
  unfolding write_value write_null decoded read_simple
  null-RoundTrips = (_, refl, single-ValueReads 5 null (λ r. refl) (omega arith) (omega arith))

  undefined-RoundTrips : RoundTrips amf3 undefined
  unfolding write_value write_object_marker decoded
  undefined-RoundTrips =
      (_, refl, object-ValueReads write_object_end_marker end (end-EntriesRead amf3) tt)

  object-RoundTrips :
      (fs : Fields)
      → Sorted fs
      → Entries (write_properties fs) (decoded_fields fs)
      → RoundTrips amf3 (object fs)
  unfolding write_value write_object_marker decoded
  object-RoundTrips fs s (w, e, r) =
      let sorted = Sorted-decoded fs s in
      (
        0x03 ∷ (w ++ write_object_end_marker),
        rw e refl,
        rw (put_all-Sorted (decoded_fields fs) sorted) at (
            object-ValueReads (w ++ write_object_end_marker) (decoded_fields fs) r
              (Sorted-Fresh (decoded_fields fs) sorted)),
      )

  array-RoundTrips :
      (vs : Items) → Entries (write_elements 0 vs) (decoded_items 0 vs) → RoundTrips amf3 (array vs)
  unfolding write_value decoded find
  array-RoundTrips vs (w, e, r) = (
    0x08 ∷ big32 (length_items vs) (w ++ write_object_end_marker),
    rw e refl,
    array-ValueReads (length_items vs) (w ++ write_object_end_marker) (decoded_items 0 vs) r
        (items-Fresh end 0 vs (λ j h. refl)),
  )

  mutual
    unfolding write_value decoded IsWritable length_items

    value-RoundTrips : (v : Value) → IsWritable v → RoundTrips amf3 v
    value-RoundTrips (number bits) h = number-RoundTrips bits h
    value-RoundTrips (boolean b) h = boolean-RoundTrips b
    value-RoundTrips (text s) h = text-RoundTrips s h
    value-RoundTrips (object fs) (s, h) = object-RoundTrips fs s (fields-Entries fs h)
    value-RoundTrips (array vs) (n, h) = array-RoundTrips vs (items-Entries 0 vs (omega arith) h)
    value-RoundTrips null h = null-RoundTrips
    value-RoundTrips undefined h = undefined-RoundTrips
    value-RoundTrips (date d) h = absurd h
    value-RoundTrips (integer n) h = number-RoundTrips (from_uint n) h
    value-RoundTrips (byte_array b) h = absurd h

    fields-Entries :
        (fs : Fields) → AreWritable fs → Entries (write_properties fs) (decoded_fields fs)
    fields-Entries end h = ([], refl, end-EntriesRead amf3)
    fields-Entries (field k v fs) (n, hv, h) =
        let (wv, ev, rv) = value-RoundTrips v hv in
        let (w, e, r) = fields-Entries fs h in
        (_, rw (ev, e) refl, entry-reads k (decoded v) (decoded_fields fs) wv w n rv r)

    items-Entries :
        (i : ℕ) (vs : Items)
        → i + length_items vs ≤ 2 ^ 31
        → AllWritable vs
        → Entries (write_elements i vs) (decoded_items i vs)
    items-Entries i nil n h = ([], refl, end-EntriesRead amf3)
    items-Entries i (cons v vs) n (hv, h) =
        let (wv, ev, rv) = value-RoundTrips v hv in
        let (w, e, r) = items-Entries (i + 1) vs (omega arith) h in
        (
          _,
          rw (ev, e) refl,
          entry-reads (decimal i) (decoded v) (decoded_items (i + 1) vs) wv w
              (decimal_pos i, omega (arith, length-decimal i (omega arith))) rv r,
        )

  -- A value that can be written is written without an error, and from the bytes written, with
  -- anything after them, `ReadValue` returns the value and leaves what follows; arrays come back
  -- as objects with the positions for names, and `Undefined` as an empty object. It holds
  -- whatever the reader of AMF3 values does.
  pub read_value-write_value :
      (v : Value) (rest : List ℕ)
      → IsWritable v
      → (w : List ℕ) × (write_value v ≡ ok w) × (read_value amf3 (w ++ rest) ≡ ok (decoded v, rest))
  unfolding read_value
  read_value-write_value v rest h =
      let (w, e, r) = value-RoundTrips v h in
      (w, e, r (2 * length (w ++ rest) + 1) rest (omega (arith, length-append w rest)))
