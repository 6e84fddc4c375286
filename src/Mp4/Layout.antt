-- ===== src/Mp4/Layout.antt =====
-- container/mp4: numbers and box headers as bytes, and what is read from them.
use golive.Common.{
  ℕ, ◌*◌, ◌/◌, ◌%◌, ◌^◌, ◌≡◌, refl, sym, ap, ◌∙◌, arith, Bool, true, false, List, [], ◌∷◌, ◌++◌,
  length, append_assoc, append-nil,
}
use golive.Common.Go.{ok, IsU32, IsU64}
use golive.Common.Go.Reader.{Reader, bytes, read_full-prefix, Reads}
use golive.ByteIo.Get.{u32_be, u64_be}
use golive.ByteIo.Put.{byte_at, put_u32_be, put_u64_be, write_u32_be, write_u64_be}
use golive.ByteIo.RoundTrip.{u32_be-eq, u64-put}
use golive.Mp4.{uint32_serialize}
use golive.Mp4.Fragment.{read_u32, read_u64, read_if, only_if, count_if, field_if}

-- Four bytes, the high one first.
abbrev pub be32 : ℕ → List ℕ
be32 v = byte_at 24 v ∷ byte_at 16 v ∷ byte_at 8 v ∷ byte_at 0 v ∷ []

pub write_u32_be-be32 : (w : List ℕ) (v : ℕ) → write_u32_be w v ≡ ok (w ++ be32 v)
unfolding write_u32_be put_u32_be
write_u32_be-be32 w v = refl

pub u32_be-be32 : (v : ℕ) (rest : List ℕ) → IsU32 v → u32_be (be32 v ++ rest) ≡ ok v
u32_be-be32 v rest h =
    u32_be-eq _ _ _ _ rest (omega arith) (omega arith) (omega arith) (omega arith)
    ∙ ap ok (omega arith)

abbrev pub words : List ℕ → List ℕ
words [] = []
words (n ∷ nums) = be32 n ++ words nums

pub words-append : (a b : List ℕ) → words (a ++ b) ≡ words a ++ words b
words-append [] b = refl
words-append (n ∷ a) b = ap (λ l. be32 n ++ l) (words-append a b)

pub length-words : (a : List ℕ) → length (words a) ≡ 4 * length a
length-words [] = refl
length-words (n ∷ a) = omega (arith, length-words a)

pub uint32_serialize-words : (w nums : List ℕ) → uint32_serialize w nums ≡ ok (w ++ words nums)
unfolding uint32_serialize
uint32_serialize-words w [] = ap ok (sym (append-nil w))
uint32_serialize-words w (n ∷ nums) =
    rw (write_u32_be-be32 w n)
      (uint32_serialize-words (w ++ be32 n) nums ∙ ap ok (append_assoc w (be32 n) (words nums)))

pub read_u32-Reads :
    (v : ℕ) (rest : List ℕ) (r : Reader)
    → IsU32 v
    → bytes r ≡ be32 v ++ rest
    → Reads read_u32 r v rest
unfolding read_u32
read_u32-Reads v rest r h e =
    let (r', p, q) = read_full-prefix (be32 v) rest r e in
    (r', rw (p, let f : u32_be (be32 v) ≡ ok v = u32_be-be32 v [] h in f) refl, q)

-- A field of 32 bits, which is 0 where it is not there.
abbrev pub IsField : Bool → ℕ → Type 0
IsField b v = IsU32 v × (b ≡ false → v ≡ 0)

pub read_if-Reads :
    (b : Bool) (v : ℕ) (rest : List ℕ) (r : Reader)
    → IsField b v
    → bytes r ≡ words (only_if b (v ∷ [])) ++ rest
    → Reads (read_if b read_u32) r v rest
unfolding read_if only_if
read_if-Reads true v rest r (h, z) e = read_u32-Reads v rest r h e
read_if-Reads false v rest r (h, z) e = (r, ap (λ n. ok (n, r)) (sym (z refl)), e)

pub field_if-eq :
    (b : Bool) (v : ℕ) (rest : List ℕ)
    → IsField b v
    → field_if b (words (only_if b (v ∷ [])) ++ rest) ≡ ok (v, rest)
unfolding field_if only_if
field_if-eq true v rest (h, z) = rw (u32_be-be32 v rest h) refl
field_if-eq false v rest (h, z) = ap (λ n. ok (n, rest)) (sym (z refl))

pub length-only_if : (b : Bool) (v : ℕ) → length (words (only_if b (v ∷ []))) ≡ count_if b 4
unfolding only_if count_if
length-only_if true v = refl
length-only_if false v = refl

-- The two halves of 64 bits are its eight bytes.
halves :
    (v : ℕ)
    → be32 (v / 2 ^ 32) ++ be32 (v % 2 ^ 32)
      ≡ byte_at 56 v ∷ byte_at 48 v ∷ byte_at 40 v ∷ byte_at 32 v ∷ be32 v
halves v =
    let e1 : byte_at 24 (v / 2 ^ 32) ≡ byte_at 56 v = omega arith in
    let e2 : byte_at 16 (v / 2 ^ 32) ≡ byte_at 48 v = omega arith in
    let e3 : byte_at 8 (v / 2 ^ 32) ≡ byte_at 40 v = omega arith in
    let e4 : byte_at 0 (v / 2 ^ 32) ≡ byte_at 32 v = omega arith in
    let e5 : byte_at 24 (v % 2 ^ 32) ≡ byte_at 24 v = omega arith in
    let e6 : byte_at 16 (v % 2 ^ 32) ≡ byte_at 16 v = omega arith in
    let e7 : byte_at 8 (v % 2 ^ 32) ≡ byte_at 8 v = omega arith in
    let e8 : byte_at 0 (v % 2 ^ 32) ≡ byte_at 0 v = omega arith in
    rw (e1, e2, e3, e4, e5, e6, e7, e8) refl

-- Eight bytes, the high one first.
abbrev pub be64 : ℕ → List ℕ
be64 v = be32 (v / 2 ^ 32) ++ be32 (v % 2 ^ 32)

pub write_u64_be-be64 : (w : List ℕ) (v : ℕ) → write_u64_be w v ≡ ok (w ++ be64 v)
unfolding write_u64_be put_u64_be
write_u64_be-be64 w v = ap (λ l. ok (w ++ l)) (sym (halves v))

pub u64_be-be64 : (v : ℕ) → IsU64 v → u64_be (be64 v) ≡ ok v
unfolding put_u64_be
u64_be-be64 v h =
    ap u64_be (halves v)
    ∙ u64-put v [] 0 0 0 0 0 0 0 0
    ∙ ap ok (let e : v % 2 ^ 64 ≡ v = omega arith in e)

pub read_u64-Reads :
    (v : ℕ) (rest : List ℕ) (r : Reader)
    → IsU64 v
    → bytes r ≡ be64 v ++ rest
    → Reads read_u64 r v rest
unfolding read_u64
read_u64-Reads v rest r h e =
    let (r', p, q) = read_full-prefix (be64 v) rest r e in (r', rw (p, u64_be-be64 v h) refl, q)
