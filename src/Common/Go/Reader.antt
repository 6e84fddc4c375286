-- ===== src/Common/Go/Reader.antt =====
-- `io.Reader`, the way a connection or a byte slice implements it: what has arrived, in the segments
-- in which `Read` returns it. `Read` gives at most one segment, and `io.EOF` at the end;
-- `io.ReadFull` goes on over the segments until the buffer is full.
pub mod Drain
use golive.Common.{
  ℕ, zero, suc, ◌+◌, ◌-◌, ◌≤◌, ◌<◌, ◌≡◌, refl, sym, ap, ◌∙◌, arith, ◌⊎◌, false, length-take,
  take-append-drop,
}
use golive.Common.{List, [], ◌∷◌, ◌++◌, append-nil, append_assoc, length, length-append, take, drop}
use golive.Common.{take-append, drop-append, take_over, drop_over, leb, ◌==◌, if◌then◌else◌}
use golive.Common.{take-append_length, drop-append_length, Bool-cases, leb→le, inl, inr}
use golive.Common.Go.{Result, Error, ok, err, eof, unexpected_eof}

abbrev pub Reader : Type 0
Reader = List (List ℕ)

-- The bytes that are still to come.
abbrev pub bytes : Reader → List ℕ
bytes [] = []
bytes (s ∷ r) = s ++ bytes r

-- The bytes of the first segment.
unfoldable pub first_length : Reader → ℕ
first_length [] = 0
first_length (s ∷ r) = length s

-- `r.Read(p)` for a `p` of `n > 0` bytes: what it put into `p`.
unfoldable pub read : ℕ → Reader → Result (List ℕ × Reader)
read n [] = err eof
read n ([] ∷ r) = read n r
read n ((b ∷ s) ∷ r) = ok (take n (b ∷ s), drop n (b ∷ s) ∷ r)

read_full_loop : List ℕ → ℕ → Reader → Result (List ℕ × Reader)
read_full_loop got n [] =
    if n == 0 then ok (got, []) else if length got == 0 then err eof else err unexpected_eof
read_full_loop got n (s ∷ r) =
    let more = read_full_loop (got ++ s) (n - length s) r in
    if leb n (length s) then ok (got ++ take n s, drop n s ∷ r) else more

-- `io.ReadFull(r, buf)` for a `buf` of `n` bytes. What is consumed before an error is not modelled:
-- every caller gives the reader up.
unfoldable pub read_full : ℕ → Reader → Result (List ℕ × Reader)
unfolding read_full_loop
read_full n r = read_full_loop [] n r

-- A read that returns `v` and leaves the bytes `rest`.
abbrev pub Reads {ℓ} : {A : Type ℓ} → (Reader → Result (A × Reader)) → Reader → A → List ℕ → Type ℓ
Reads p r v rest = (r' : Reader) × (p r ≡ ok (v, r')) × (bytes r' ≡ rest)

read_full_loop-Reads :
    (got : List ℕ) (n : ℕ) (r : Reader)
    → n ≤ length (bytes r)
    → Reads (read_full_loop got n) r (got ++ take n (bytes r)) (drop n (bytes r))
unfolding read_full_loop
read_full_loop-Reads got zero [] h = ([], rw append-nil, refl)
read_full_loop-Reads got (suc n) [] h = absurd (omega arith)
read_full_loop-Reads got n (s ∷ r) h = elim (Bool-cases (leb n (length s))) [
  | inl e ↦ (
    drop n s ∷ r,
    rw (e, take-append n s (bytes r) (leb→le _ _ e)),
    sym (drop-append n s (bytes r) (leb→le _ _ e)),
  )
  | inr e ↦
      let fits : length s ≤ n = ground arith in
      let (r', p, q) =
        read_full_loop-Reads (got ++ s) (n - length s) r
          (omega (arith, length-append s (bytes r))) in
      (
        r',
        rw e (p ∙ rw (take_over n s (bytes r) fits, append_assoc)),
        q ∙ sym (drop_over n s (bytes r) fits),
      )
]

-- Where `n` bytes are still to come, `io.ReadFull` returns them, however they are split up.
pub read_full-Reads :
    (n : ℕ) (r : Reader)
    → n ≤ length (bytes r)
    → Reads (read_full n) r (take n (bytes r)) (drop n (bytes r))
unfolding read_full
read_full-Reads n r h = read_full_loop-Reads [] n r h

-- The same, for a stream that is known to begin with `xs`.
pub read_full-prefix :
    (xs rest : List ℕ) (r : Reader) → bytes r ≡ xs ++ rest → Reads (read_full (length xs)) r xs rest
read_full-prefix xs rest r e =
    let (r', p, q) = read_full-Reads (length xs) r (rw e (omega (arith, length-append xs rest))) in
    (r', p ∙ rw (e, take-append_length), q ∙ rw (e, drop-append_length))

read_full_loop-short :
    (got : List ℕ) (n : ℕ) (r : Reader)
    → length (bytes r) < n
    → (e : Error) × (read_full_loop got n r ≡ err e)
unfolding read_full_loop
read_full_loop-short got n [] h =
    let nonzero : (n == 0) ≡ false = ground arith in
    elim (Bool-cases (length got == 0)) [
      | inl e ↦ (eof, rw (nonzero, e) refl)
      | inr e ↦ (unexpected_eof, rw (nonzero, e) refl)
    ]
read_full_loop-short got n (s ∷ r) h =
    let sum : length (bytes (s ∷ r)) ≡ length s + length (bytes r) = length-append s (bytes r) in
    let over : leb n (length s) ≡ false = ground arith in
    let (e, p) = read_full_loop-short (got ++ s) (n - length s) r (omega arith) in (e, rw over p)

-- `io.ReadFull` returns an error, or the next `n` bytes.
pub read_full-cases :
    (n : ℕ) (r : Reader)
    → ((e : Error) × (read_full n r ≡ err e))
      ⊎ ((xs : List ℕ) × (length xs ≡ n)
          × (r' : Reader) × (read_full n r ≡ ok (xs, r'))
          × (bytes r ≡ xs ++ bytes r'))
unfolding read_full
read_full-cases n r = elim (Bool-cases (leb n (length (bytes r)))) [
  | inl e ↦
      let fits = leb→le n (length (bytes r)) e in
      let (r', p, q) = read_full-Reads n r fits in
      inr (
        take n (bytes r),
        length-take n (bytes r) fits,
        r',
        p,
        sym (take-append-drop n (bytes r)) ∙ ap (λ l. take n (bytes r) ++ l) (sym q),
      )
  | inr e ↦ inl (read_full_loop-short [] n r (ground arith))
]

pub read_full_end : (n : ℕ) → read_full (suc n) [] ≡ err eof
unfolding read_full read_full_loop
read_full_end n = let nonzero : (suc n == 0) ≡ false = ground arith in rw nonzero refl
