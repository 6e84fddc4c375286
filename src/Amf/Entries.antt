-- ===== src/Amf/Entries.antt =====
-- What the AMF0 readers make of the bytes of a string, of a number, and of an object, given that its
-- values are read.
use golive.Common.{ℕ, zero, suc, ◌+◌, ◌*◌, ◌-◌, ◌%◌, ◌^◌, ◌<◌, ◌≡◌, refl, ap, ◌∙◌}
use golive.Common.{arith, none, List, [], ◌∷◌, ◌++◌, length}
use golive.Common.{append_assoc, append-nil, length-append, take-append_length, drop-append_length}
use golive.Common.{le→leb, ◌==◌, false}
use golive.Common.Go.{Result, ok}
use golive.Common.Go.Strings.{GoString}
use golive.ByteIo.Get.{u16_be, u32_be, u64_be}
use golive.ByteIo.Put.{put_u16_be, put_u32_be, put_u64_be}
use golive.ByteIo.RoundTrip.{u16-put, u32-put, u64-put}
use golive.Amf.{Value, Fields, end, field}
use golive.Amf.Objects.{find, put}
use golive.Amf.Read.{Rest, read_exact, read_once, read_utf8, read_utf8_long, read_float, read_byte}
use golive.Amf.Read.{read_object_end, read_property, read_property_loop, read_value_loop}
use golive.Amf.Write.{big16, big32, big64, write_utf8, write_object_name, write_object_end_marker}

pub read_exact-append :
    (xs rest : List ℕ) → 0 < length xs → read_exact (length xs) (xs ++ rest) ≡ ok (xs, rest)
unfolding read_exact
read_exact-append [] rest h = absurd (omega arith)
read_exact-append (x ∷ xs) rest h =
    rw
      (
        le→leb (length (x ∷ xs)) (length (x ∷ (xs ++ rest))) (omega (arith, length-append xs rest)),
        take-append_length xs rest,
        drop-append_length xs rest,
      )
      refl

pub read_once-append :
    (xs rest : List ℕ) → 0 < length xs → read_once (length xs) (xs ++ rest) ≡ ok (xs, rest)
unfolding read_once
read_once-append [] rest h = absurd (omega arith)
read_once-append (x ∷ xs) rest h =
    let none_missing : length (x ∷ xs) - length (x ∷ (xs ++ rest)) ≡ 0 =
      omega (arith, length-append xs rest) in
    rw (none_missing, take-append_length xs rest, drop-append_length xs rest)
      (ap (λ l. ok (l, rest)) (append-nil (x ∷ xs)))

pub read_u16 : (v : ℕ) → v < 2 ^ 16 → u16_be (big16 v []) ≡ ok v
unfolding put_u16_be
read_u16 v h = u16-put v [] 0 0 ∙ ap ok (omega arith)

pub read_u32 : (v : ℕ) → v < 2 ^ 32 → u32_be (big32 v []) ≡ ok v
unfolding put_u32_be
read_u32 v h = u32-put v [] 0 0 0 0 ∙ ap ok (omega arith)

pub read_u64 : (v : ℕ) → v < 2 ^ 64 → u64_be (big64 v []) ≡ ok v
unfolding put_u64_be
read_u64 v h = u64-put v [] 0 0 0 0 0 0 0 0 ∙ ap ok (omega arith)

pub suc_nonzero : (n : ℕ) → (suc n == 0) ≡ false
suc_nonzero n = ground arith

pub read_utf8-append :
    (s rest : GoString)
    → length s < 2 ^ 16
    → read_utf8 (big16 (length s) (s ++ rest)) ≡ ok (s, rest)
unfolding read_utf8
read_utf8-append [] rest h =
    rw (read_exact-append (big16 0 []) rest (omega arith), read_u16 0 (omega arith)) refl
read_utf8-append (x ∷ s) rest h =
    rw
      (
        read_exact-append (big16 (length (x ∷ s)) []) ((x ∷ s) ++ rest) (omega arith),
        read_u16 (length (x ∷ s)) h,
        suc_nonzero (length s),
      )
      (read_once-append (x ∷ s) rest (omega arith))

pub read_utf8_long-append :
    (s rest : GoString)
    → length s < 2 ^ 32
    → read_utf8_long (big32 (length s) (s ++ rest)) ≡ ok (s, rest)
unfolding read_utf8_long
read_utf8_long-append [] rest h =
    rw (read_exact-append (big32 0 []) rest (omega arith), read_u32 0 (omega arith)) refl
read_utf8_long-append (x ∷ s) rest h =
    rw
      (
        read_exact-append (big32 (length (x ∷ s)) []) ((x ∷ s) ++ rest) (omega arith),
        read_u32 (length (x ∷ s)) h,
        suc_nonzero (length s),
      )
      (read_once-append (x ∷ s) rest (omega arith))

pub read_float-append :
    (bits : ℕ) (rest : List ℕ) → bits < 2 ^ 64 → read_float (big64 bits rest) ≡ ok (bits, rest)
unfolding read_float
read_float-append bits rest h =
    rw (read_exact-append (big64 bits []) rest (omega arith), read_u64 bits h) refl

-- A name that can be written: not empty, since the empty name ends an object, and with a length of
-- 16 bits.
abbrev pub IsName : GoString → Type 0
IsName k = (0 < length k) × (length k < 2 ^ 16)

-- No entry of `fs` has the key of another, or of an entry of `acc`.
abbrev pub Fresh : Fields → Fields → Type 0
Fresh acc end = Unit
Fresh acc (field k v fs) = (find k acc ≡ none) × Fresh (put k v acc) fs

abbrev pub put_all : Fields → Fields → Fields
put_all acc end = acc
put_all acc (field k v fs) = put_all (put k v acc) fs

module _ (amf3 : Rest → Result (Value × Rest)) where
  -- The bytes `w` are read as `v`, within fuel for twice their number.
  abbrev pub ValueReads : List ℕ → Value → Type 0
  ValueReads w v =
      (fuel : ℕ) (rest : List ℕ)
      → 2 * length w < fuel
      → read_value_loop amf3 fuel (w ++ rest) ≡ ok (v, rest)

  -- The bytes `w` are read as the properties `fs`, with the end of the object, by the loop that has
  -- read `acc`.
  abbrev pub EntriesRead : List ℕ → Fields → Type 0
  EntriesRead w fs =
      (fuel : ℕ) (acc : Fields) (rest : List ℕ)
      → 2 * length w < fuel
      → Fresh acc fs
      → read_property_loop amf3 fuel acc (w ++ rest) ≡ ok (put_all acc fs, rest)

  pub end-EntriesRead : EntriesRead write_object_end_marker end
  unfolding write_object_end_marker read_property_loop read_property read_object_end read_byte
  end-EntriesRead zero acc rest h f = absurd (omega arith)
  end-EntriesRead (suc fuel) acc rest h f =
      rw (read_utf8-append [] (0x09 ∷ rest) (omega arith)) refl

  pub field-EntriesRead :
      (k : GoString) (v : Value) (fs : Fields) (wv w : List ℕ)
      → IsName k
      → ValueReads wv v
      → EntriesRead w fs
      → EntriesRead (write_object_name k ++ (wv ++ w)) (field k v fs)
  unfolding write_object_name write_utf8 read_property_loop read_property
  field-EntriesRead [] v fs wv w n rv rw' fuel acc rest h f = absurd (omega (arith, n.0))
  field-EntriesRead (c ∷ k) v fs wv w n rv rw' zero acc rest h f = absurd (omega arith)
  field-EntriesRead (c ∷ k) v fs wv w n rv rw' (suc fuel) acc rest h f =
      let len : length (c ∷ k) % 2 ^ 16 ≡ length (c ∷ k) = omega (arith, n.1) in
      let size : 2 * (2 + (length (c ∷ k) + (length wv + length w))) < suc fuel =
        omega (arith, h, length-append (c ∷ k) (wv ++ w), length-append wv w) in
      rw
        (
          len,
          append_assoc (c ∷ k) (wv ++ w) rest,
          append_assoc wv w rest,
          read_utf8-append (c ∷ k) (wv ++ (w ++ rest)) n.1,
          read_property,
          f.0,
          rv fuel (w ++ rest) (omega (arith, size)),
        )
        (rw' fuel (put (c ∷ k) v acc) rest (omega (arith, size)) f.1)
