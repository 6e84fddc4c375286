-- ===== src/Amf/Amf3/RoundTrip.antt =====
-- utils/amf/amf3.go: what is written is read back, but for arrays.
use golive.Common.{
  arith, ℕ, zero, suc, ◌+◌, ◌*◌, ◌<◌, ◌≡◌, refl, ap, ◌∙◌, List, [], ◌∷◌, ◌++◌, length,
  length-append, append_assoc,
}
use golive.Common.Go.{Result, panic, stuck, ok, err, ◌>>=◌, unknown_marker}
use golive.Common.Go.Float.{from_uint}
use golive.Common.Go.Strings.{GoString}
use mathlib.Core.Path.{transport}
use golive.Amf.{Value, Fields, Items, number, boolean, text, object, array, null, undefined, date}
use golive.Amf.{integer, byte_array, end, field}
use golive.Amf.Read.{Rest, read_byte}
use golive.Amf.Write.{length_items}
use golive.Amf.Entries.{Fresh, put_all}
use golive.Amf.Keys.{Sorted, Sorted-Fresh, put_all-Sorted}
use golive.Amf.Amf3.Read.{
  amf3_read_utf8, read_traits, amf3_read_marked, amf3_value_loop, amf3_read_value,
}
use golive.Amf.Amf3.Write.{
  write_length, amf3_write_object_end_marker, write_object_start, amf3_write_value,
  amf3_write_items,
}
use golive.Amf.Amf3.Pieces.{
  amf3_decoded, amf3_decoded_fields, IsReadable, AreReadable, Sorted-decoded, ValueReads,
  EntriesRead, RoundTrips, Entries, utf8-Reads, number-RoundTrips, boolean-RoundTrips,
  null-RoundTrips, undefined-RoundTrips, text-RoundTrips, byte_array-RoundTrips, end-EntriesRead,
  field-EntriesRead,
}

object-ValueReads :
    (w : List ℕ) (fs : Fields)
    → EntriesRead w fs
    → Fresh end fs
    → ValueReads (write_object_start ++ w) (object (put_all end fs))
unfolding write_object_start amf3_value_loop read_byte amf3_read_marked read_traits
object-ValueReads w fs r fresh zero rest f = absurd (omega arith)
object-ValueReads w fs r fresh (suc fuel) rest f = rw (r fuel end rest (omega arith) fresh) refl

object-RoundTrips : (fs : Fields) → Sorted fs → Entries fs → RoundTrips (object fs)
unfolding amf3_write_value amf3_decoded write_object_start
object-RoundTrips fs s (w, e, r) =
    let sorted = Sorted-decoded fs s in
    (
      write_object_start ++ (w ++ amf3_write_object_end_marker),
      rw e refl,
      rw (put_all-Sorted (amf3_decoded_fields fs) sorted) at (
          object-ValueReads (w ++ amf3_write_object_end_marker) (amf3_decoded_fields fs) r
            (Sorted-Fresh (amf3_decoded_fields fs) sorted)),
    )

-- An entry before others, with the end of the object.
entry-reads :
    (k : GoString) (v : Value) (fs : Fields) (wk wv w : List ℕ)
    → 0 < length k
    → 0 < length wk
    → ((rest : Rest) → amf3_read_utf8 (wk ++ rest) ≡ ok (k, rest))
    → ValueReads wv v
    → EntriesRead (w ++ amf3_write_object_end_marker) fs
    → EntriesRead ((wk ++ (wv ++ w)) ++ amf3_write_object_end_marker) (field k v fs)
entry-reads k v fs wk wv w n p rk rv r =
    let same : (wk ++ (wv ++ w)) ++ amf3_write_object_end_marker
        ≡ wk ++ (wv ++ (w ++ amf3_write_object_end_marker)) =
      append_assoc wk (wv ++ w) amf3_write_object_end_marker
      ∙ ap (λ l. wk ++ l) (append_assoc wv w amf3_write_object_end_marker) in
    rw same (field-EntriesRead k v fs wk wv (w ++ amf3_write_object_end_marker) n p rk rv r)

mutual
  unfolding amf3_write_value amf3_decoded IsReadable

  value-RoundTrips : (v : Value) → IsReadable v → RoundTrips v
  value-RoundTrips (number bits) h = (_, refl, number-RoundTrips bits h)
  value-RoundTrips (boolean b) h = (_, refl, boolean-RoundTrips b)
  value-RoundTrips (text s) h = text-RoundTrips s h
  value-RoundTrips (object fs) (s, h) = object-RoundTrips fs s (fields-Entries fs h)
  value-RoundTrips (array vs) h = absurd h
  value-RoundTrips null h = (_, refl, null-RoundTrips)
  value-RoundTrips undefined h = (_, refl, undefined-RoundTrips)
  value-RoundTrips (date d) h = absurd h
  value-RoundTrips (integer n) h = (_, refl, number-RoundTrips (from_uint n) h)
  value-RoundTrips (byte_array b) (p, h) = byte_array-RoundTrips b p h

  fields-Entries : (fs : Fields) → AreReadable fs → Entries fs
  fields-Entries end h = ([], refl, end-EntriesRead)
  fields-Entries (field k v fs) (n, hv, h) =
      let (wk, ek, p, rk) = utf8-Reads k n.1 in
      let (wv, ev, rv) = value-RoundTrips v hv in
      let (w, e, r) = fields-Entries fs h in
      (
        wk ++ (wv ++ w),
        rw (ek, ev, e) refl,
        entry-reads k (amf3_decoded v) (amf3_decoded_fields fs) wk wv w n.0 p rk rv r,
      )

-- A value that can be read is written without an error, and from the bytes written, with anything
-- after them, AMF3_ReadValue returns the value and leaves what follows; an integer comes back as a
-- double.
pub amf3_read_value-write_value :
    (v : Value) (rest : List ℕ)
    → IsReadable v
    → (w : List ℕ) × (amf3_write_value v ≡ ok w)
      × (amf3_read_value (w ++ rest) ≡ ok (amf3_decoded v, rest))
unfolding amf3_read_value
amf3_read_value-write_value v rest h =
    let (w, e, r) = value-RoundTrips v h in
    (w, e, r (2 * length (w ++ rest) + 1) rest (omega (arith, length-append w rest)))

-- Bytes that begin with the marker of an array, where there are any.
abbrev IsMarked : Result (List ℕ) → Type 0
IsMarked (ok w) = (u : List ℕ) × (w ≡ 0x09 ∷ u)
IsMarked (err e) = Unit {0}
IsMarked panic = Unit {0}
IsMarked stuck = Unit {0}

IsMarked-bind :
    (x : Result (List ℕ)) (f : List ℕ → Result (List ℕ))
    → ((a : List ℕ) → IsMarked (f a))
    → IsMarked (x >>= f)
IsMarked-bind (ok a) f g = g a
IsMarked-bind (err e) f g = tt
IsMarked-bind panic f g = tt
IsMarked-bind stuck f g = tt

array-IsMarked : (vs : Items) → IsMarked (amf3_write_value (array vs))
unfolding amf3_write_value
array-IsMarked vs =
    IsMarked-bind (write_length (length_items vs)) _
      (λ n. IsMarked-bind (amf3_write_items vs) _ (λ w. (n ++ (0x01 ∷ w), refl)))

array_marker : (fuel : ℕ) (r : Rest) → amf3_value_loop (suc fuel) (0x09 ∷ r) ≡ err unknown_marker
unfolding amf3_value_loop read_byte amf3_read_marked
array_marker fuel r = refl

-- An array is never read back: whatever its elements are, AMF3_ReadValue refuses what
-- AMF3_WriteValue wrote of it.
pub written_array_unread :
    (vs : Items) (w rest : List ℕ)
    → amf3_write_value (array vs) ≡ ok w
    → amf3_read_value (w ++ rest) ≡ err unknown_marker
unfolding amf3_read_value
written_array_unread vs w rest e =
    let (u, same) = transport (ap IsMarked e) (array-IsMarked vs) in
    let fuel : 2 * length (w ++ rest) + 1 ≡ suc (2 * length (w ++ rest)) = omega arith in
    ap (λ (n : ℕ). amf3_value_loop n (w ++ rest)) fuel
    ∙ ap (λ (x : List ℕ). amf3_value_loop (suc (2 * length (w ++ rest))) (x ++ rest)) same
    ∙ array_marker (2 * length (w ++ rest)) (u ++ rest)
