-- ===== src/Amf/Total.antt =====
-- The AMF0 readers end on every input: the fuel given is enough, and a value takes a byte at least.
use golive.Common.{ℕ, zero, suc, ◌+◌, ◌*◌, ◌<◌, ◌≤◌, arith, Bool, true, false, ◌&&◌}
use golive.Common.{Option-cases, Bool-cases, leb→le, inl, inr, List, [], ◌∷◌, length}
use golive.Common.{length-drop, leb, ◌==◌, not, if◌then◌else◌}
use golive.Common.Go.{Result, Error, ok, err, panic, ◌>>=◌, eof, unexpected_eof, type_error}
use golive.Common.Go.{expect_object_end, object_property_exists, marker_object_end}
use golive.Common.Go.{unsupported_type, unknown_marker}
use golive.Common.Go.Strings.{GoString}
use golive.ByteIo.Get.{u16_be, u32_be, u64_be}
use golive.Amf.{Value, Fields, Items, number, boolean, text, object, array, null, undefined, date}
use golive.Amf.{end, nil, cons}
use golive.Amf.Objects.{find, put}
use golive.Amf.Read.{Rest, read_exact, read_once, read_byte, read_utf8, read_utf8_long, read_float}
use golive.Amf.Read.{read_date, read_object_end, read_simple, read_property, read_element}
use golive.Amf.Read.{
  read_marked, read_value_loop, read_property_loop, read_element_loop, read_value, read_object,
  read_object_property,
}

-- A read from `r` that ends with an error, or with a result and `n` bytes less at least.
pub data Takes {A : Type 0} (n : ℕ) (r : Rest) : Result (A × Rest) → Type 0 where
  gives : (a : A) (r' : Rest) → length r' + n ≤ length r → Takes n r (ok (a, r'))
  fails : (e : Error) → Takes n r (err e)
  panics : Takes n r panic

-- A computation on the side that ends.
data Ends {A : Type 0} : Result A → Type 0 where
  given : (a : A) → Ends (ok a)
  failed : (e : Error) → Ends (err e)
  panicked : Ends panic

module _ {A B : Type 0} {n : ℕ} {r : Rest} where
  pub Takes-bind :
      {k : ℕ} {x : Result (A × Rest)} (f : A × Rest → Result (B × Rest))
      → Takes k r x
      → ((a : A) (r' : Rest) → length r' + k ≤ length r → Takes n r (f (a, r')))
      → Takes n r (x >>= f)
  Takes-bind f (gives a r' l) g = g a r' l
  Takes-bind f (fails e) g = fails e
  Takes-bind f panics g = panics

  Takes-aside :
      {x : Result A} (f : A → Result (B × Rest))
      → Ends x
      → ((a : A) → Takes n r (f a))
      → Takes n r (x >>= f)
  Takes-aside f (given a) g = g a
  Takes-aside f (failed e) g = fails e
  Takes-aside f panicked g = panics

module _ {A : Type 0} where
  -- A read from what an earlier read has left.
  pub Takes-after :
      {n : ℕ} {r : Rest} {x : Result (A × Rest)} (k m : ℕ) (r' : Rest)
      → Takes k r' x
      → length r' + m ≤ length r
      → n ≤ k + m
      → Takes n r x
  Takes-after k m r' (gives a r'' l) l' e = gives a r'' (omega arith)
  Takes-after k m r' (fails e) l e' = fails e
  Takes-after k m r' panics l e = panics

u16_be-Ends : (b : List ℕ) → Ends (u16_be b)
unfolding u16_be
u16_be-Ends (a ∷ b ∷ r) = given _
u16_be-Ends _ = panicked

u32_be-Ends : (b : List ℕ) → Ends (u32_be b)
unfolding u32_be
u32_be-Ends (a ∷ b ∷ c ∷ d ∷ r) = given _
u32_be-Ends _ = panicked

u64_be-Ends : (b : List ℕ) → Ends (u64_be b)
unfolding u64_be
u64_be-Ends (a ∷ b ∷ c ∷ d ∷ e ∷ f ∷ g ∷ i ∷ r) = given _
u64_be-Ends _ = panicked

pub read_byte-Takes : (r : Rest) → Takes 1 r (read_byte r)
unfolding read_byte
read_byte-Takes [] = fails eof
read_byte-Takes (b ∷ r) = gives b r (omega arith)

read_exact-Takes : (n : ℕ) (r : Rest) → Takes n r (read_exact n r)
unfolding read_exact
read_exact-Takes n [] = fails eof
read_exact-Takes n (b ∷ r) = elim (Bool-cases (leb n (length (b ∷ r)))) [
  | inl e ↦ rw e (gives _ _ (omega (arith, leb→le n (length (b ∷ r)) e, length-drop n (b ∷ r))))
  | inr e ↦ rw e (fails unexpected_eof)
]

pub read_once-Takes : (n : ℕ) (r : Rest) → Takes 0 r (read_once n r)
unfolding read_once
read_once-Takes n [] = fails eof
read_once-Takes n (b ∷ r) = gives _ _ (omega (arith, length-drop n (b ∷ r)))

module _ {A : Type 0} {n : ℕ} {r : Rest} {x y : Result (A × Rest)} where
  -- A test between two reads.
  pub Takes-if : (b : Bool) → Takes n r x → Takes n r y → Takes n r (if b then x else y)
  Takes-if true h k = h
  Takes-if false h k = k

module _ {A B : Type 0} {r : Rest} where
  -- A value made of what is read.
  pub Takes-map :
      {n : ℕ} {x : Result (A × Rest)} (g : A → B)
      → Takes n r x
      → Takes 0 r (x >>= λ (a, r'). ok (g a, r'))
  Takes-map g h = Takes-bind _ h (λ a r' l. gives (g a) r' (omega arith))

string_or_none-Takes : (n : ℕ) (r : Rest) → Takes 0 r (if n == 0 then ok ([], r) else read_once n r)
string_or_none-Takes n r = Takes-if (n == 0) (gives [] r (omega arith)) (read_once-Takes n r)

read_utf8-Takes : (r : Rest) → Takes 2 r (read_utf8 r)
unfolding read_utf8
read_utf8-Takes r = Takes-bind _ (read_exact-Takes 2 r) (λ b r' h.
    Takes-aside _ (u16_be-Ends b)
      (λ n. Takes-after 0 2 r' (string_or_none-Takes n r') h (omega arith)))

read_utf8_long-Takes : (r : Rest) → Takes 0 r (read_utf8_long r)
unfolding read_utf8_long
read_utf8_long-Takes r = Takes-bind _ (read_exact-Takes 4 r) (λ b r' h.
    Takes-aside _ (u32_be-Ends b)
      (λ n. Takes-after 0 4 r' (string_or_none-Takes n r') h (omega arith)))

pub read_float-Takes : (r : Rest) → Takes 0 r (read_float r)
unfolding read_float
read_float-Takes r =
    Takes-bind _ (read_exact-Takes 8 r)
      (λ b r' h. Takes-aside _ (u64_be-Ends b) (λ n. gives n r' (omega arith)))

read_date-Takes : (r : Rest) → Takes 0 r (read_date r)
unfolding read_date
read_date-Takes r = Takes-bind _ (read_float-Takes r) (λ b r' h.
    Takes-bind {k = 0} _ (Takes-after 2 0 r' (read_exact-Takes 2 r') h (omega arith))
      (λ z r'' h'. gives (date b) r'' (omega arith)))

read_object_end-Takes : (obj : Fields) (r : Rest) → Takes 0 r (read_object_end obj r)
unfolding read_object_end
read_object_end-Takes obj r =
    Takes-bind _ (read_byte-Takes r)
      (λ b r' h. Takes-if (b == 0x09) (gives obj r' (omega arith)) (fails expect_object_end))

read_simple-Takes : (marker : ℕ) (r : Rest) → Takes 0 r (read_simple marker r)
unfolding read_simple
read_simple-Takes marker r = Takes-if (marker == 0x00) (Takes-map number (read_float-Takes r)) (
    Takes-if (marker == 0x01) (Takes-map (λ b. boolean (not (b == 0))) (read_byte-Takes r)) (
      Takes-if (marker == 0x02) (Takes-map text (read_utf8-Takes r)) (
        Takes-if (marker == 0x05) (gives null r (omega arith)) (
          Takes-if (marker == 0x06) (gives undefined r (omega arith)) (
            Takes-if (marker == 0x09) (fails marker_object_end) (
              Takes-if (marker == 0x0b) (read_date-Takes r) (
                Takes-if (marker == 0x0c) (Takes-map text (read_utf8_long-Takes r)) (
                  Takes-if (marker == 0x04) (fails unsupported_type) (
                    Takes-if (marker == 0x07) (fails unsupported_type) (
                      Takes-if (leb 0x0d marker && leb marker 0x10) (fails unsupported_type)
                        (fails unknown_marker)))))))))))

module _ (amf3 : Rest → Result (Value × Rest)) (amf3-Takes : (r : Rest) → Takes 0 r (amf3 r)) where
  -- The switch, with loops that end on what is left of `r0` after the marker.
  module _ (r0 r : Rest) (used : length r + 1 ≤ length r0)
      (properties : Fields → Rest → Result (Fields × Rest))
      (elements : ℕ → Rest → Result (Items × Rest))
      (properties-Takes : (obj : Fields) (r' : Rest)
        → length r' + 1 ≤ length r0
        → Takes 0 r' (properties obj r'))
      (elements-Takes : (n : ℕ) (r' : Rest)
        → length r' + 1 ≤ length r0
        → Takes 0 r' (elements n r')) where
    read_marked-Takes : (marker : ℕ) → Takes 0 r (read_marked amf3 properties elements marker r)
    unfolding read_marked
    read_marked-Takes marker = Takes-if _ (Takes-map object (properties-Takes end r used)) (
        Takes-if _
          (Takes-bind _ (read_once-Takes 4 r) (λ len r1 l.
            Takes-after 0 0 r1 (Takes-map object (properties-Takes end r1 (omega arith))) l
              (omega arith)))
          (Takes-if _
            (Takes-bind _ (read_exact-Takes 4 r) (λ b r1 l. Takes-aside _ (u32_be-Ends b) (λ n.
              Takes-after 0 4 r1 (Takes-map array (elements-Takes n r1 (omega arith))) l
                (omega arith))))
            (Takes-if _ (amf3-Takes r) (read_simple-Takes marker r))))

  -- One property, with loops that end on less than `r0`.
  module _ (r0 : Rest) (value : Rest → Result (Value × Rest))
      (next : Fields → Rest → Result (Fields × Rest))
      (value-Takes : (r : Rest) → length r + 2 ≤ length r0 → Takes 1 r (value r))
      (next-Takes : (obj : Fields) (r : Rest)
        → length r + 3 ≤ length r0
        → Takes 0 r (next obj r)) where
    read_property-Takes :
        (obj : Fields) (name : GoString) (r : Rest)
        → length r + 2 ≤ length r0
        → Takes 0 r (read_property amf3 value next obj name r)
    unfolding read_property
    read_property-Takes obj [] r l = read_object_end-Takes obj r
    read_property-Takes obj (c ∷ name) r l = elim (Option-cases (find (c ∷ name) obj)) [
      | inl e ↦
          rw (read_property, e)
            (Takes-bind _ (value-Takes r l) (λ v r1 l1.
              Takes-after 0 1 r1 (next-Takes (put (c ∷ name) v obj) r1 (omega arith)) l1
                (omega arith)))
      | inr (old, e) ↦ rw (read_property, e) (fails object_property_exists)
    ]

  mutual
    unfolding read_value_loop read_element

    value_loop-Takes :
        (fuel : ℕ) (r : Rest) → 2 * length r < fuel → Takes 1 r (read_value_loop amf3 fuel r)
    value_loop-Takes zero r h = absurd (omega arith)
    value_loop-Takes (suc fuel) r h = Takes-bind _ (read_byte-Takes r) (λ marker r1 l.
        Takes-after 0 1 r1
          (read_marked-Takes r r1 l _ _ (λ obj r' l'. property_loop-Takes fuel obj r' (omega arith))
            (λ n r' l'. element_loop-Takes fuel n r' (omega arith)) marker)
          l (omega arith))

    property_loop-Takes :
        (fuel : ℕ) (obj : Fields) (r : Rest)
        → 2 * length r < fuel
        → Takes 0 r (read_property_loop amf3 fuel obj r)
    property_loop-Takes zero obj r h = absurd (omega arith)
    property_loop-Takes (suc fuel) obj r h = Takes-bind _ (read_utf8-Takes r) (λ name r1 l.
        Takes-after 0 2 r1
          (read_property-Takes r _ _ (λ r' l'. value_loop-Takes fuel r' (omega arith))
            (λ obj' r' l'. property_loop-Takes fuel obj' r' (omega arith)) obj name r1 l)
          l (omega arith))

    element_loop-Takes :
        (fuel n : ℕ) (r : Rest)
        → 2 * length r + 1 < fuel
        → Takes 0 r (read_element_loop amf3 fuel n r)
    element_loop-Takes zero n r h = absurd (omega arith)
    element_loop-Takes (suc fuel) zero r h = gives nil r (omega arith)
    element_loop-Takes (suc fuel) (suc n) r h =
        Takes-bind _ (value_loop-Takes fuel r (omega arith)) (λ v r1 l.
          Takes-after 0 1 r1 (Takes-map (cons v) (element_loop-Takes fuel n r1 (omega arith))) l
            (omega arith))

  read_value-Takes : (r : Rest) → Takes 1 r (read_value amf3 r)
  unfolding read_value
  read_value-Takes r = value_loop-Takes (2 * length r + 1) r (omega arith)

  read_object-Takes : (r : Rest) → Takes 1 r (read_object amf3 r)
  unfolding read_object read_object_property
  read_object-Takes r = Takes-bind _ (read_byte-Takes r) (λ b r1 l.
      Takes-if (b == 0x03)
        (Takes-after 0 1 r1 (property_loop-Takes (2 * length r1 + 2) end r1 (omega arith)) l
          (omega arith))
        (fails type_error))

  -- On every input `ReadValue` and `ReadObject` end, within the fuel that the models give them: with
  -- an error, with a panic, or with a value and at least one byte less to come. It is assumed
  -- that the reader of AMF3 values ends, and adds no bytes.
  pub readers-Takes : (r : Rest) → Takes 1 r (read_value amf3 r) × Takes 1 r (read_object amf3 r)
  readers-Takes r = (read_value-Takes r, read_object-Takes r)
