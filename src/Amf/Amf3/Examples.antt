-- ===== src/Amf/Amf3/Examples.antt =====
-- Runs of the AMF3 codec (utils/amf/amf3.go), and the theorems at concrete values.
use golive.Common.{ℕ, ◌+◌, ◌<◌, ◌≤◌, ◌^◌, ◌≡◌, refl, arith, List, [], ◌∷◌, ◌++◌, length}
use golive.Common.Go.{ok}
use golive.Amf.{Value, boolean, text, object, array, integer, byte_array, end, field, nil, cons}
use golive.Amf.Objects.{before}
use golive.Amf.Read.{Rest, read_value, read_object}
use golive.Amf.Total.{Takes}
use golive.Amf.Amf3.U29.{read_u29, write_u29, read_u29-bounds}
use golive.Amf.Amf3.Read.{amf3_read_value}
use golive.Amf.Amf3.Write.{amf3_write_value}
use golive.Amf.Amf3.Pieces.{amf3_decoded, IsReadable}
use golive.Amf.Amf3.RoundTrip.{amf3_read_value-write_value}
use golive.Amf.Amf3.Total.{amf3_read_value-Takes}

abbrev sample : Value
sample = object (
    field (97 ∷ []) (byte_array (1 ∷ 2 ∷ []))
      (field (98 ∷ []) (object (field (99 ∷ []) (text []) end)) end))

sample-IsReadable : IsReadable sample
unfolding IsReadable before
sample-IsReadable = (
  (refl, tt),
  (
    (omega arith, omega arith),
    (omega arith, omega arith),
    ((omega arith, omega arith), (tt, ((omega arith, omega arith), omega arith, tt)), tt),
  ),
)

amf3_read_value-write_value_example :
    (w : List ℕ) × (amf3_write_value sample ≡ ok w)
    × (amf3_read_value (w ++ (7 ∷ [])) ≡ ok (amf3_decoded sample, 7 ∷ []))
amf3_read_value-write_value_example = amf3_read_value-write_value sample (7 ∷ []) sample-IsReadable

-- The largest number: four bytes.
abbrev largest : Rest
largest = 0xff ∷ 0xff ∷ 0xff ∷ 0xff ∷ 7 ∷ []

abbrev after : Rest
after = 7 ∷ []

read_u29-bounds_example :
    (0x1fffffff < 2 ^ 29) × (length largest ≤ length after + 4) × (length after < length largest)
unfolding read_u29 golive.Amf.Amf3.U29.read_u29_loop golive.Amf.Read.read_byte
read_u29-bounds_example =
    read_u29-bounds largest after 0x1fffffff
      (omega arith, (omega arith, (omega arith, (omega arith, (omega arith, tt))))) refl

amf3_read_value-Takes_example :
    Takes 1 (10 ∷ 11 ∷ []) (amf3_read_value (10 ∷ 11 ∷ []))
    × (Takes 1 (10 ∷ 11 ∷ []) (read_value amf3_read_value (10 ∷ 11 ∷ []))
        × Takes 1 (10 ∷ 11 ∷ []) (read_object amf3_read_value (10 ∷ 11 ∷ [])))
amf3_read_value-Takes_example = amf3_read_value-Takes (10 ∷ 11 ∷ [])
