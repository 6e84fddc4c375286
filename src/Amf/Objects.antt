-- ===== src/Amf/Objects.antt =====
-- AMF objects as Go maps with string keys: the entries in the order of the keys.
use golive.Common.{◌≡◌, ◌≢◌, refl, ap, sym, arith, Bool, true, false, ◌&&◌, ◌||◌}
use golive.Common.{Option, none, some, [], ◌∷◌, ◌==◌, ltb, inl, inr, Bool-cases, if◌then◌else◌}
use golive.Common.Go.Strings.{GoString, same, same→eq, same_ne}
use golive.Amf.{Value, Fields, end, field}

-- `a < b` of Go strings
unfoldable pub before : GoString → GoString → Bool
before [] [] = false
before [] (y ∷ b) = true
before (x ∷ a) [] = false
before (x ∷ a) (y ∷ b) = ltb x y || (x == y && before a b)

-- `obj[k]`
unfoldable pub find : GoString → Fields → Option Value
find k end = none
find k (field k' v fs) = if same k' k then some v else find k fs

-- `obj[k] = v`
unfoldable pub put : GoString → Value → Fields → Fields
put k v end = field k v end
put k v (field k' v' fs) =
    let later = field k' v' (put k v fs) in
    if same k' k then field k v fs else if before k k' then field k v (field k' v' fs) else later

before_irrefl : (a : GoString) → before a a ≡ false
unfolding before
before_irrefl [] = refl
before_irrefl (x ∷ a) = ground (arith, before_irrefl a)

pub before_trans : (a b c : GoString) → before a b ≡ true → before b c ≡ true → before a c ≡ true
unfolding before
before_trans [] [] c h h' = cc
before_trans [] (y ∷ b) [] h h' = cc
before_trans [] (y ∷ b) (z ∷ c) h h' = refl
before_trans (x ∷ a) [] c h h' = cc
before_trans (x ∷ a) (y ∷ b) [] h h' = cc
before_trans (x ∷ a) (y ∷ b) (z ∷ c) h h' = ground (arith, before_trans a b c)

pub before_asym : (a b : GoString) → before a b ≡ true → before b a ≡ false
unfolding before
before_asym [] [] h = cc
before_asym [] (y ∷ b) h = refl
before_asym (x ∷ a) [] h = cc
before_asym (x ∷ a) (y ∷ b) h = ground (arith, before_asym a b)

pub before_ne : (a b : GoString) → before a b ≡ true → a ≢ b
before_ne a b h e =
    let loop : before a a ≡ true = rw (sym e) at h in ground (arith, before_irrefl a)

-- Putting another key does not change what is found.
pub find-put_ne :
    (k j : GoString) (v : Value) (fs : Fields) → k ≢ j → find j (put k v fs) ≡ find j fs
unfolding find put
find-put_ne k j v end n = rw (same_ne k j n) refl
find-put_ne k j v (field k' v' fs) n = elim (Bool-cases (same k' k)) [
  | inl e ↦ rw (e, put) (rw (same→eq k' k e, same_ne k j n) refl)
  | inr e ↦ elim (Bool-cases (before k k')) [
    | inl b ↦ rw (e, b, put) (rw (same_ne k j n) refl)
    | inr b ↦ rw (e, b, put) (ap (λ r. if same k' j then some v' else r) (find-put_ne k j v fs n))
  ]
]

-- Every key of the object stands before `k`.
abbrev pub Above : GoString → Fields → Type 0
Above k end = Unit
Above k (field k' v fs) = (before k' k ≡ true) × Above k fs

unfoldable pub snoc : Fields → GoString → Value → Fields
snoc end k v = field k v end
snoc (field k' v' fs) k v = field k' v' (snoc fs k v)

pub Above-find : (k : GoString) (fs : Fields) → Above k fs → find k fs ≡ none
unfolding find
Above-find k end h = refl
Above-find k (field k' v fs) (h, hs) = rw (same_ne k' k (before_ne k' k h)) (Above-find k fs hs)

pub Above-put : (k : GoString) (v : Value) (fs : Fields) → Above k fs → put k v fs ≡ snoc fs k v
unfolding put snoc
Above-put k v end h = refl
Above-put k v (field k' v' fs) (h, hs) =
    rw (same_ne k' k (before_ne k' k h), before_asym k' k h, put)
      (ap (field k' v') (Above-put k v fs hs))

pub Above-trans : (k j : GoString) (fs : Fields) → before k j ≡ true → Above k fs → Above j fs
Above-trans k j end b h = tt
Above-trans k j (field k' v fs) b (h, hs) = (before_trans k' k j h b, Above-trans k j fs b hs)

pub Above-snoc :
    (k j : GoString) (v : Value) (fs : Fields)
    → Above k fs
    → before j k ≡ true
    → Above k (snoc fs j v)
unfolding snoc
Above-snoc k j v end h b = (b, tt)
Above-snoc k j v (field k' v' fs) (h, hs) b = (h, Above-snoc k j v fs hs b)
