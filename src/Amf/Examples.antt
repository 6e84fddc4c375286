-- ===== src/Amf/Examples.antt =====
-- Runs of the AMF0 codec, and the theorems at concrete values.
use golive.Common.{ℕ, ◌≡◌, refl, arith, true, List, [], ◌∷◌, ◌++◌}
use golive.Common.Go.{Result, ok, err, unsupported_type}
use golive.Amf.{Value, boolean, text, object, array, undefined, end}
use golive.Amf.{field, nil, cons}
use golive.Amf.Objects.{before}
use golive.Amf.Read.{Rest, read_value, read_object}
use golive.Amf.Write.{write_value, length_items}
use golive.Amf.RoundTrip.{decoded, IsWritable, read_value-write_value}
use golive.Amf.Total.{Takes, fails, readers-Takes}

-- A reader that knows no AMF3 value.
abbrev no_amf3 : Rest → Result (Value × Rest)
no_amf3 r = err unsupported_type

abbrev sample : Value
sample = object (
    field (97 ∷ []) (array (cons (boolean true) (cons undefined nil)))
      (field (98 ∷ []) (text (1 ∷ 2 ∷ [])) end))

sample-IsWritable : IsWritable sample
unfolding IsWritable before length_items
sample-IsWritable = (
  (refl, tt),
  (
    (omega arith, omega arith),
    (omega arith, (tt, (tt, tt))),
    ((omega arith, omega arith), omega arith, tt),
  ),
)

read_value-write_value_example :
    (w : List ℕ) × (write_value sample ≡ ok w)
    × (read_value no_amf3 (w ++ (7 ∷ [])) ≡ ok (decoded sample, 7 ∷ []))
read_value-write_value_example = read_value-write_value no_amf3 sample (7 ∷ []) sample-IsWritable

readers-Takes_example :
    Takes 1 (3 ∷ 0 ∷ []) (read_value no_amf3 (3 ∷ 0 ∷ []))
    × Takes 1 (3 ∷ 0 ∷ []) (read_object no_amf3 (3 ∷ 0 ∷ []))
readers-Takes_example = readers-Takes no_amf3 (λ r. fails unsupported_type) (3 ∷ 0 ∷ [])
