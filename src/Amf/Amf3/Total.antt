-- ===== src/Amf/Amf3/Total.antt =====
-- The AMF3 readers (utils/amf/amf3.go) end on every input, and with them those of AMF0.
use golive.Common.{ℕ, zero, suc, ◌+◌, ◌*◌, ◌/◌, ◌%◌, ◌^◌, ◌<◌, ◌≤◌, arith, true, false}
use golive.Common.{Option-cases, Bool-cases, inl, inr, [], ◌∷◌, length, take, drop}
use golive.Common.{length-drop, leb, ◌==◌, not}
use golive.Common.Go.{Result, ◌>>=◌, eof, reference_unsupported, wrong_size}
use golive.Common.Go.{object_property_exists, unsupported_type, unknown_marker}
use golive.Common.Go.Strings.{GoString}
use golive.Amf.{Value, Fields, number, boolean, text, object, null, undefined, integer, byte_array}
use golive.Amf.{end}
use golive.Amf.Objects.{find, put}
use golive.Amf.Read.{Rest, read_byte, read_value, read_object}
use golive.Amf.Total.{Takes, gives, fails, Takes-bind, Takes-after, Takes-if, Takes-map}
use golive.Amf.Total.{read_byte-Takes, read_once-Takes, read_float-Takes, readers-Takes}
use golive.Amf.Amf3.U29.{read_u29, read_u29_loop}
use golive.Amf.Amf3.Read.{
  amf3_read_utf8, read_buffer, byte_array_body, read_traits, amf3_property, amf3_read_marked,
  amf3_value_loop, amf3_property_loop, amf3_read_value,
}

u29_loop-Takes : (count n : ℕ) (r : Rest) → Takes 1 r (read_u29_loop count n r)
unfolding read_u29_loop
u29_loop-Takes zero n r =
    Takes-bind _ (read_byte-Takes r) (λ b r' l. gives ((n * 2 ^ 8 + b) % 2 ^ 32) r' (omega arith))
u29_loop-Takes (suc count) n r = Takes-bind _ (read_byte-Takes r) (λ b r' l.
    Takes-if (b / 2 ^ 7 % 2 == 0) (gives ((n * 2 ^ 7 + b % 2 ^ 7) % 2 ^ 32) r' (omega arith)) (
      Takes-after 1 0 r' (u29_loop-Takes count ((n * 2 ^ 7 + b % 2 ^ 7) % 2 ^ 32) r') (omega arith)
        (omega arith)))

u29-Takes : (r : Rest) → Takes 1 r (read_u29 r)
unfolding read_u29
u29-Takes r = u29_loop-Takes 3 0 r

utf8-Takes : (r : Rest) → Takes 1 r (amf3_read_utf8 r)
unfolding amf3_read_utf8
utf8-Takes r = Takes-bind _ (u29-Takes r) (λ n r' l.
    Takes-if (not (n % 2 == 1)) (fails reference_unsupported) (
      Takes-if (n / 2 == 0) (gives [] r' (omega arith))
        (Takes-after 0 1 r' (read_once-Takes (n / 2) r') l (omega arith))))

buffer-Takes : (n : ℕ) (r : Rest) → Takes 0 r (read_buffer n r)
unfolding read_buffer
buffer-Takes n [] = fails eof
buffer-Takes n (b ∷ r) =
    Takes-if (leb n (length (b ∷ r)))
      (gives (take n (b ∷ r)) (drop n (b ∷ r)) (omega (arith, length-drop n (b ∷ r))))
      (fails wrong_size)

byte_array-Takes : (r : Rest) → Takes 1 r (byte_array_body r)
unfolding byte_array_body
byte_array-Takes r = Takes-bind _ (u29-Takes r) (λ n r' l.
    Takes-if (not (n % 2 == 1)) (fails unsupported_type)
      (Takes-after 0 1 r' (buffer-Takes (n / 2) r') l (omega arith)))

module _ {A : Type 0} {n : ℕ} where
  traits-Takes :
      (r : Rest) (f : Rest → Result (A × Rest))
      → ((r' : Rest) → length r' + 2 ≤ length r → Takes n r (f r'))
      → Takes n r (read_traits r >>= f)
  unfolding read_traits read_byte
  traits-Takes [] f g = fails eof
  traits-Takes (b ∷ []) f g = elim (Bool-cases (b == 0x0b)) [
    | inl e ↦ rw e (fails eof)
    | inr e ↦ rw e (fails unsupported_type)
  ]
  traits-Takes (b ∷ c ∷ r) f g = elim (Bool-cases (b == 0x0b)) [
    | inl e ↦ elim (Bool-cases (c == 0x01)) [
      | inl e' ↦ rw (e, e') (g r (omega arith))
      | inr e' ↦ rw (e, e') (fails unsupported_type)
    ]
    | inr e ↦ rw e (fails unsupported_type)
  ]

-- The switch, with a loop that ends on what is left of `r0` after the marker.
marked-Takes :
    (r0 r : Rest) (properties : Fields → Rest → Result (Fields × Rest))
    → length r + 1 ≤ length r0
    → ((obj : Fields) (r' : Rest) → length r' + 1 ≤ length r0 → Takes 0 r' (properties obj r'))
    → (marker : ℕ) → Takes 0 r (amf3_read_marked properties marker r)
unfolding amf3_read_marked
marked-Takes r0 r properties used ends marker = Takes-if _ (gives undefined r (omega arith)) (
    Takes-if _ (gives null r (omega arith)) (
      Takes-if _ (gives (boolean false) r (omega arith)) (
        Takes-if _ (gives (boolean true) r (omega arith)) (
          Takes-if _ (Takes-map integer (u29-Takes r)) (
            Takes-if _ (Takes-map number (read_float-Takes r)) (
              Takes-if _ (Takes-map text (utf8-Takes r)) (
                Takes-if _
                  (traits-Takes r _ (λ r' l.
                    Takes-after 0 2 r' (Takes-map object (ends end r' (omega arith))) l
                      (omega arith)))
                  (Takes-if _ (Takes-map byte_array (byte_array-Takes r))
                    (fails unknown_marker)))))))))

-- One property, with loops that end on less than `r0`.
property-Takes :
    (r0 : Rest) (value : Rest → Result (Value × Rest))
    (next : Fields → Rest → Result (Fields × Rest))
    → ((r : Rest) → length r + 1 ≤ length r0 → Takes 1 r (value r))
    → ((obj : Fields) (r : Rest) → length r + 2 ≤ length r0 → Takes 0 r (next obj r))
    → (obj : Fields) (name : GoString) (r : Rest) → length r + 1 ≤ length r0
    → Takes 0 r (amf3_property value next obj name r)
unfolding amf3_property
property-Takes r0 value next hv hn obj [] r l = gives obj r (omega arith)
property-Takes r0 value next hv hn obj (c ∷ name) r l = elim (Option-cases (find (c ∷ name) obj)) [
  | inl e ↦
      rw (amf3_property, e)
        (Takes-bind _ (hv r l) (λ v r1 l1.
          Takes-after 0 1 r1 (hn (put (c ∷ name) v obj) r1 (omega arith)) l1 (omega arith)))
  | inr (old, e) ↦ rw (amf3_property, e) (fails object_property_exists)
]

mutual
  unfolding amf3_value_loop

  value_loop-Takes :
      (fuel : ℕ) (r : Rest) → 2 * length r < fuel → Takes 1 r (amf3_value_loop fuel r)
  value_loop-Takes zero r h = absurd (omega arith)
  value_loop-Takes (suc fuel) r h = Takes-bind _ (read_byte-Takes r) (λ marker r1 l.
      Takes-after 0 1 r1
        (marked-Takes r r1 _ l (λ obj r' l'. property_loop-Takes fuel obj r' (omega arith)) marker)
        l (omega arith))

  property_loop-Takes :
      (fuel : ℕ) (obj : Fields) (r : Rest)
      → 2 * length r < fuel
      → Takes 0 r (amf3_property_loop fuel obj r)
  property_loop-Takes zero obj r h = absurd (omega arith)
  property_loop-Takes (suc fuel) obj r h = Takes-bind _ (utf8-Takes r) (λ name r1 l.
      Takes-after 0 1 r1
        (property-Takes r _ _ (λ r' l'. value_loop-Takes fuel r' (omega arith))
          (λ obj' r' l'. property_loop-Takes fuel obj' r' (omega arith)) obj name r1 l)
        l (omega arith))

amf3_ends : (r : Rest) → Takes 1 r (amf3_read_value r)
unfolding amf3_read_value
amf3_ends r = value_loop-Takes (2 * length r + 1) r (omega arith)

-- On every input AMF3_ReadValue ends within the fuel that its model gives it, and so does the reader of
-- AMF0 values and objects that switches to it: with an error, with a panic, or with a value and at
-- least one byte less to come.
pub amf3_read_value-Takes :
    (r : Rest)
    → Takes 1 r (amf3_read_value r)
      × (Takes 1 r (read_value amf3_read_value r) × Takes 1 r (read_object amf3_read_value r))
amf3_read_value-Takes r = (
  amf3_ends r,
  readers-Takes amf3_read_value
      (λ r'. Takes-after 1 0 r' (amf3_ends r') (omega arith) (omega arith)) r,
)
