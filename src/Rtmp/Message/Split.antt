-- ===== src/Rtmp/Message/Split.antt =====
-- `ToType0Chunk` cuts a payload into pieces of the chunk size, the last of which may be shorter.
use golive.Common.{ℕ, zero, suc, ◌-◌, ◌<◌, ◌≤◌, ◌≡◌, refl, sym, arith, inl, inr}
use golive.Common.{List, [], ◌∷◌, ◌++◌, length, take, drop, take-append-drop, length-take}
use golive.Common.{length-drop, leb, leb→le, Bool-cases}
use golive.Common.Go.{ok, stuck}
use golive.Rtmp.Message.{split}

-- The pieces of `x` for the chunk size `n`: each but the last has `n` bytes, the last at least one
-- and at most `n`.
pub data Pieces (n : ℕ) : List ℕ → List (List ℕ) → Type 0 where
  last : (p : List ℕ) → 0 < length p → length p ≤ n → Pieces n p (p ∷ [])
  more :
      (p q x : List ℕ) {ps : List (List ℕ)}
      → x ≡ p ++ q
      → length p ≡ n
      → 0 < length q
      → Pieces n q ps
      → Pieces n x (p ∷ ps)

-- A payload that is not empty is cut into its pieces for every chunk size but 0, within as many
-- rounds as it has bytes.
pub split-Pieces :
    (fuel n : ℕ) (x : List ℕ)
    → 0 < n
    → 0 < length x
    → length x ≤ fuel
    → (ps : List (List ℕ)) × (split fuel x n ≡ ok ps) × Pieces n x ps
unfolding split
split-Pieces fuel n [] hn hx hf = absurd (omega arith)
split-Pieces zero n (b ∷ x) hn hx hf = absurd (omega arith)
split-Pieces (suc fuel) n (b ∷ x) hn hx hf = elim (Bool-cases (leb (length (b ∷ x)) n)) [
  | inl e ↦ ((b ∷ x) ∷ [], rw (e, split), last (b ∷ x) hx (leb→le _ _ e))
  | inr e ↦
      let long : n < length (b ∷ x) = ground arith in
      let left : length (drop n (b ∷ x)) ≡ length (b ∷ x) - n = length-drop n (b ∷ x) in
      let (ps, p, h) = split-Pieces fuel n (drop n (b ∷ x)) hn (omega arith) (omega arith) in
      (
        take n (b ∷ x) ∷ ps,
        rw (e, split) (rw p),
        more (take n (b ∷ x)) (drop n (b ∷ x)) (b ∷ x) (sym (take-append-drop n (b ∷ x)))
            (length-take n (b ∷ x) (omega arith)) (omega arith) h,
      )
]

-- With a chunk size of 0 the loop takes nothing off: no number of rounds ends it.
pub split_zero_stuck : (fuel b : ℕ) (x : List ℕ) → split fuel (b ∷ x) 0 ≡ stuck
unfolding split
split_zero_stuck zero b x = refl
split_zero_stuck (suc fuel) b x = ground (arith, split_zero_stuck fuel b x)
