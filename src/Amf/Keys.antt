-- ===== src/Amf/Keys.antt =====
-- Objects whose keys stand in their order are rebuilt by putting their entries one after the other.
use golive.Common.{◌≡◌, refl, ap, ◌∙◌, true}
use golive.Common.Go.Strings.{GoString}
use golive.Amf.{Value, Fields, end, field}
use golive.Amf.Objects.{before, Above, snoc, Above-find, Above-put, Above-trans}
use golive.Amf.Objects.{Above-snoc}
use golive.Amf.Entries.{Fresh, put_all}

-- The keys stand in their order.
abbrev pub Sorted : Fields → Type 0
Sorted end = Unit
Sorted (field k v end) = Unit
Sorted (field k v (field k' v' fs)) = (before k k' ≡ true) × Sorted (field k' v' fs)

append : Fields → Fields → Fields
append end gs = gs
append (field k v fs) gs = field k v (append fs gs)

append-snoc :
    (acc fs : Fields) (k : GoString) (v : Value)
    → append (snoc acc k v) fs ≡ append acc (field k v fs)
unfolding append snoc
append-snoc end fs k v = refl
append-snoc (field k' v' acc) fs k v = ap (field k' v') (append-snoc acc fs k v)

-- The first key of `fs` stands after those of `acc`.
abbrev Below : Fields → Fields → Type 0
Below acc end = Unit
Below acc (field k v fs) = Above k acc

tail-Sorted : (k : GoString) (v : Value) (fs : Fields) → Sorted (field k v fs) → Sorted fs
tail-Sorted k v end h = tt
tail-Sorted k v (field k' v' fs) (b, h) = h

Below-snoc :
    (acc fs : Fields) (k : GoString) (v : Value)
    → Sorted (field k v fs)
    → Above k acc
    → Below (snoc acc k v) fs
Below-snoc acc end k v h a = tt
Below-snoc acc (field k' v' fs) k v (b, h) a = Above-snoc k' k v acc (Above-trans k k' acc b a) b

Fresh-after : (acc fs : Fields) → Sorted fs → Below acc fs → Fresh acc fs
Fresh-after acc end s b = tt
Fresh-after acc (field k v fs) s b = (
  Above-find k acc b,
  rw (Above-put k v acc b)
      (Fresh-after (snoc acc k v) fs (tail-Sorted k v fs s) (Below-snoc acc fs k v s b)),
)

put_all-append : (acc fs : Fields) → Sorted fs → Below acc fs → put_all acc fs ≡ append acc fs
unfolding append
put_all-append acc end s b = append_end acc
  where
    append_end : (acc : Fields) → acc ≡ append acc end
    append_end end = refl
    append_end (field k v fs) = ap (field k v) (append_end fs)
put_all-append acc (field k v fs) s b = rw (Above-put k v acc b) (
    put_all-append (snoc acc k v) fs (tail-Sorted k v fs s) (Below-snoc acc fs k v s b)
    ∙ append-snoc acc fs k v)

pub Sorted-Fresh : (fs : Fields) → Sorted fs → Fresh end fs
Sorted-Fresh end s = tt
Sorted-Fresh (field k v fs) s = Fresh-after end (field k v fs) s tt

pub put_all-Sorted : (fs : Fields) → Sorted fs → put_all end fs ≡ fs
unfolding append
put_all-Sorted end s = refl
put_all-Sorted (field k v fs) s = put_all-append end (field k v fs) s tt
