-- ===== src/Common/Go/Reader/Drain.antt =====
-- How much a read takes from an `io.Reader`, so that a loop of reads ends.
use golive.Common.{
  arith, ◌≡◌, ℕ, zero, suc, ◌+◌, ◌-◌, ◌≤◌, Bool, true, false, List, [], ◌∷◌, ◌++◌, length,
  length-append,
}
use golive.Common.{leb, leb→le, ◌==◌, take, drop, length-drop, Bool-cases, inl, inr, if◌then◌else◌}
use golive.Common.Go.{Result, Error, ok, err, panic, ◌>>=◌, eof, unexpected_eof}
use golive.Common.Go.Reader.{Reader, bytes, read_full, read_full_loop}

-- A read that ends, and takes `n` bytes at least where it returns a value.
pub data Drains {A : Type 0} (n : ℕ) (r : Reader) : Result (A × Reader) → Type 0 where
  drained :
      (a : A) (r' : Reader) → length (bytes r') + n ≤ length (bytes r) → Drains n r (ok (a, r'))
  failed : (e : Error) → Drains n r (err e)
  panicked : Drains n r panic

-- A computation that ends.
pub data Returns {A : Type 0} : Result A → Type 0 where
  returned : (a : A) → Returns (ok a)
  erred : (e : Error) → Returns (err e)
  broke : Returns panic

module _ {A B : Type 0} {n : ℕ} {r : Reader} where
  pub Drains-bind :
      {k : ℕ} {x : Result (A × Reader)} (f : A × Reader → Result (B × Reader))
      → Drains k r x
      → ((a : A) (r' : Reader) → length (bytes r') + k ≤ length (bytes r) → Drains n r (f (a, r')))
      → Drains n r (x >>= f)
  Drains-bind f (drained a r' l) g = g a r' l
  Drains-bind f (failed e) g = failed e
  Drains-bind f panicked g = panicked

  pub Drains-aside :
      {x : Result A} (f : A → Result (B × Reader))
      → Returns x
      → ((a : A) → Drains n r (f a))
      → Drains n r (x >>= f)
  Drains-aside f (returned a) g = g a
  Drains-aside f (erred e) g = failed e
  Drains-aside f broke g = panicked

module _ {A : Type 0} where
  pub Drains-if :
      {n : ℕ} {r : Reader} (b : Bool) {x y : Result (A × Reader)}
      → Drains n r x
      → Drains n r y
      → Drains n r (if b then x else y)
  Drains-if true p q = p
  Drains-if false p q = q

  -- A read from what an earlier one has left.
  pub Drains-after :
      {n : ℕ} {r : Reader} {x : Result (A × Reader)} (k m : ℕ) (r' : Reader)
      → Drains k r' x
      → length (bytes r') + m ≤ length (bytes r)
      → n ≤ k + m
      → Drains n r x
  Drains-after k m r' (drained a r'' l) l' e = drained a r'' (omega arith)
  Drains-after k m r' (failed e') l' e = failed e'
  Drains-after k m r' panicked l' e = panicked

read_full_loop-Drains : (got : List ℕ) (n : ℕ) (r : Reader) → Drains n r (read_full_loop got n r)
unfolding read_full_loop
read_full_loop-Drains got zero [] = drained got [] (omega arith)
read_full_loop-Drains got (suc n) [] =
    let nonzero : (suc n == 0) ≡ false = ground arith in
    rw nonzero (Drains-if _ (failed eof) (failed unexpected_eof))
read_full_loop-Drains got n (s ∷ r) =
    let more = read_full_loop-Drains (got ++ s) (n - length s) r in
    elim (Bool-cases (leb n (length s))) [
      | inl e ↦ rw e (
          drained (got ++ take n s) (drop n s ∷ r) (
            omega (
              arith,
              leb→le n (length s) e,
              length-drop n s,
              length-append (drop n s) (bytes r),
              length-append s (bytes r),
            )))
      | inr e ↦ rw e (
          Drains-after (n - length s) (length s) r more (omega (arith, length-append s (bytes r)))
            (omega arith))
    ]

pub read_full-Drains : (n : ℕ) (r : Reader) → Drains n r (read_full n r)
unfolding read_full
read_full-Drains n r = read_full_loop-Drains [] n r
