-- ===== src/Rtmp/Handshake/Position.antt =====
-- protocol/rtmp/handshake.go: where `parseHandshakeDigestBlock` finds the digest.
use golive.Common.{
  ℕ, zero, suc, ◌+◌, ◌-◌, ◌%◌, ◌≤◌, ◌≡◌, refl, sym, ap, ◌∙◌, arith, ◌==◌, if◌then◌else◌, inl, inr,
  Bool-cases, le→leb,
}
use golive.Common.{List, [], ◌∷◌, ◌++◌, length, take, drop, length-take, length-drop}
use golive.Common.{
  take-append-drop, take-append, drop-append, take-append_length, drop-append_length,
}
use golive.Common.Go.{ok}
use golive.Rtmp.Handshake.{
  DigestBlock, slice, offset_sum, base_of, schema1, buffer, parse_handshake_digest_block,
}

abbrev pub total : List ℕ → ℕ
total [] = 0
total (b ∷ o) = b + total o

-- The place that the four bytes at `base` point to.
abbrev pub position : ℕ → List ℕ → ℕ
position base c = total (take 4 (drop base c)) % 728 + 4 + base

module _ {ℓ} {A : Type ℓ} where
  pub take_all : (xs : List A) (n : ℕ) → length xs ≤ n → take n xs ≡ xs
  take_all [] zero h = refl
  take_all [] (suc n) h = refl
  take_all (x ∷ xs) zero h = absurd (omega arith)
  take_all (x ∷ xs) (suc n) h = rw (take_all xs n (omega arith))

  take-take : (n m : ℕ) (xs : List A) → n ≤ m → take n (take m xs) ≡ take n xs
  take-take zero m xs h = refl
  take-take (suc n) zero xs h = absurd (omega arith)
  take-take (suc n) (suc m) [] h = refl
  take-take (suc n) (suc m) (x ∷ xs) h = rw (take-take n m xs (omega arith))

  drop-drop : (n m k : ℕ) (xs : List A) → k ≡ m + n → drop n (drop m xs) ≡ drop k xs
  drop-drop n zero k xs e = ap (λ i. drop i xs) (let e' : n ≡ k = omega arith in e')
  drop-drop n (suc m) zero xs e = absurd (omega arith)
  drop-drop zero (suc m) (suc k) [] e = refl
  drop-drop (suc n) (suc m) (suc k) [] e = refl
  drop-drop n (suc m) (suc k) (x ∷ xs) e = drop-drop n m k xs (omega arith)

  pub cut_in_three :
      (m n : ℕ) (xs : List A) → take m xs ++ (take n (drop m xs) ++ drop (m + n) xs) ≡ xs
  cut_in_three m n xs =
      ap (λ l. take m xs ++ (take n (drop m xs) ++ l)) (sym (drop-drop n m (m + n) xs refl))
      ∙ ap (λ l. take m xs ++ l) (take-append-drop n (drop m xs))
      ∙ take-append-drop m xs

  -- What a list of three parts is cut into where they meet.
  pub cut_parts :
      (xs ys zs : List A) (m n : ℕ)
      → m ≡ length xs
      → n ≡ length ys
      → (take m (xs ++ (ys ++ zs)) ≡ xs)
        × (take n (drop m (xs ++ (ys ++ zs))) ≡ ys)
        × (drop (m + n) (xs ++ (ys ++ zs)) ≡ zs)
  cut_parts xs ys zs m n em en =
      let behind : drop m (xs ++ (ys ++ zs)) ≡ ys ++ zs =
        ap (λ k. drop k (xs ++ (ys ++ zs))) em ∙ drop-append_length xs (ys ++ zs) in
      (
        ap (λ k. take k (xs ++ (ys ++ zs))) em ∙ take-append_length xs (ys ++ zs),
        ap (take n) behind ∙ ap (λ k. take k (ys ++ zs)) en ∙ take-append_length ys zs,
        sym (drop-drop n m (m + n) (xs ++ (ys ++ zs)) refl)
            ∙ ap (drop n) behind
            ∙ ap (λ k. drop k (ys ++ zs)) en
            ∙ drop-append_length ys zs,
      )

  -- A stretch that lies in the first of two parts.
  pub stretch-append :
      (n k : ℕ) (xs ys : List A)
      → k + n ≤ length xs
      → take n (drop k (xs ++ ys)) ≡ take n (drop k xs)
  stretch-append n k xs ys h =
      ap (take n) (drop-append k xs ys (omega arith))
      ∙ take-append n (drop k xs) ys (omega (arith, length-drop k xs))

pub slice-eq :
    (lo hi : ℕ) (b : List ℕ)
    → lo ≤ hi
    → hi ≤ length b
    → slice lo hi b ≡ ok (take (hi - lo) (drop lo b))
unfolding slice
slice-eq lo hi b h1 h2 = rw (le→leb lo hi h1, le→leb hi (length b) h2) refl

pub slice_end : (lo : ℕ) (b : List ℕ) → lo ≤ length b → slice lo (length b) b ≡ ok (drop lo b)
slice_end lo b h =
    slice-eq lo (length b) b h (omega arith)
    ∙ ap ok (take_all (drop lo b) (length b - lo) (omega (arith, length-drop lo b)))

pub offset_sum-total : (n : ℕ) (o : List ℕ) → length o ≡ n → offset_sum n o ≡ ok (total o)
unfolding offset_sum
offset_sum-total zero [] h = refl
offset_sum-total zero (b ∷ o) h = absurd (omega arith)
offset_sum-total (suc n) [] h = absurd (omega arith)
offset_sum-total (suc n) (b ∷ o) h = rw (offset_sum-total n o (omega arith)) refl

-- The block that is found in `c`, in terms of the place.
abbrev pub block_at : ℕ → ℕ → List ℕ → DigestBlock
block_at base p c = record {
  random1 = take p c;
  digest = take 32 (drop p c);
  random2 = drop (p + 32) c;
  offset = take 4 (drop base c);
  digest_offset = p;
}

position-bounds :
    (base : ℕ) (c : List ℕ) → (base + 4 ≤ position base c) × (position base c + 32 ≤ base + 763)
position-bounds base c = (omega arith, omega arith)

block_data-eq :
    (schema : ℕ) (c : List ℕ)
    → length c ≡ 1536
    → (if schema == schema1 then slice (base_of schema) 1536 c else ok (take 764 (drop 8 c)))
      ≡ ok (take 764 (drop (base_of schema) c))
unfolding base_of
block_data-eq schema c h = elim (Bool-cases (schema == schema1)) [
  | inl e ↦ rw e (slice-eq 772 1536 c (omega arith) (omega arith))
  | inr e ↦ rw e refl
]

-- `b[lo:lo+n]`
slice_at :
    (lo n : ℕ) (b : List ℕ) → lo + n ≤ length b → slice lo (lo + n) b ≡ ok (take n (drop lo b))
slice_at lo n b h =
    let e : lo + n - lo ≡ n = omega arith in
    slice-eq lo (lo + n) b (omega arith) h ∙ ap (λ k. ok (take k (drop lo b))) e

pub base_of-le : (schema : ℕ) → base_of schema ≤ 772
unfolding base_of
base_of-le schema = elim (Bool-cases (schema == schema1)) [
  | inl e ↦ rw e (omega arith)
  | inr e ↦ rw e (omega arith)
]

-- The block is cut out where the four bytes point to, and every slice is within the 1536 bytes.
pub parse-block_at :
    (schema : ℕ) (c : List ℕ)
    → length c ≡ 1536
    → parse_handshake_digest_block c schema
      ≡ ok (block_at (base_of schema) (position (base_of schema) c) c)
unfolding parse_handshake_digest_block
parse-block_at schema c h =
    let base = base_of schema in
    let p = position base c in
    let low = base_of-le schema in
    let at : (base + 4 ≤ p) × (p + 32 ≤ base + 763) = position-bounds base c in
    let four = take 4 (drop base c) in
    let block_size : length (take 764 (drop base c)) ≡ 764 =
      length-take 764 (drop base c) (omega (arith, length-drop base c)) in
    let four_size : length four ≡ 4 =
      length-take 4 (drop base c) (omega (arith, length-drop base c)) in
    let e1 = slice_at 8 764 c (omega arith) in
    let e3 =
      slice_at 0 4 (take 764 (drop base c)) (omega arith)
      ∙ ap ok (take-take 4 764 (drop base c) (omega arith)) in
    let e5 : slice 0 p c ≡ ok (take p c) =
      slice-eq 0 p c (omega arith) (omega arith)
      ∙ ap (λ k. ok (take k c)) (let e : p - 0 ≡ p = omega arith in e) in
    rw
      (
        e1,
        block_data-eq schema c h,
        e3,
        offset_sum-total 4 four four_size,
        e5,
        slice_at p 32 c (omega arith),
        slice_end (p + 32) c (omega arith),
      )
      refl

-- What the block is to be: its three parts make up the buffer, the digest has 32 bytes, and lies behind
-- the four bytes of the offset, within its 764 bytes.
pub record Cuts (base : ℕ) (c : List ℕ) (b : DigestBlock) : Type 0 where
  pub whole : buffer b ≡ c
  pub front_size : length b.random1 ≡ b.digest_offset
  pub digest_size : length b.digest ≡ 32
  pub offset_bytes : b.offset ≡ take 4 (drop base c)
  pub pointed_to : b.digest_offset ≡ total b.offset % 728 + 4 + base
  pub behind_offset : base + 4 ≤ b.digest_offset
  pub within_block : b.digest_offset + 32 ≤ base + 764

pub block_at-Cuts :
    (base : ℕ) (c : List ℕ)
    → base ≤ 772
    → length c ≡ 1536
    → Cuts base c (block_at base (position base c) c)
unfolding buffer
block_at-Cuts base c low h =
    let p = position base c in
    let at : (base + 4 ≤ p) × (p + 32 ≤ base + 763) = position-bounds base c in
    record {
      whole = cut_in_three p 32 c;
      front_size = length-take p c (omega arith);
      digest_size = length-take 32 (drop p c) (omega (arith, length-drop p c));
      offset_bytes = refl;
      pointed_to = refl;
      behind_offset = omega arith;
      within_block = omega arith;
    }

-- For 1536 bytes and either schema, parseHandshakeDigestBlock returns, without a slice out of range,
-- a block whose three parts make up the buffer; the digest has 32 bytes, begins where the sum of the
-- four offset bytes says, behind these, and ends within the 764 bytes of its block.
pub parse_handshake_digest_block-Cuts :
    (schema : ℕ) (c : List ℕ)
    → length c ≡ 1536
    → (b : DigestBlock) × (parse_handshake_digest_block c schema ≡ ok b) × Cuts (base_of schema) c b
parse_handshake_digest_block-Cuts schema c h = (
  block_at (base_of schema) (position (base_of schema) c) c,
  parse-block_at schema c h,
  block_at-Cuts (base_of schema) c (base_of-le schema) h,
)
