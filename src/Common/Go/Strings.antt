-- ===== src/Common/Go/Strings.antt =====
-- Go strings as lists of bytes, and Go maps with string keys, as lists of entries: what the code
-- iterates over or takes the length of. `insert` puts an entry where there is none for the key,
-- or in place of the one there is.
use golive.Common.{
  ℕ, ◌≡◌, ◌≢◌, refl, ap, sym, ◌∙◌, Bool, true, false, ◌&&◌, arith, Option, some, none,
}
use Prim.Native.String.{String}
use Prim.Native.Char.{code}
use golive.Common.{◌⊎◌, List, [], ◌∷◌, ◌==◌, inl, inr, Bool-cases, if◌then◌else◌}

abbrev pub GoString : Type 0
GoString = List ℕ

-- A string literal of ASCII characters.
unfoldable pub ascii : String → GoString
ascii String.[] = []
ascii (String.◌∷◌ c s) = code c ∷ ascii s

unfoldable pub same : GoString → GoString → Bool
same [] [] = true
same [] (y ∷ b) = false
same (x ∷ a) [] = false
same (x ∷ a) (y ∷ b) = x == y && same a b

-- `strings.Index(s, prefix) == 0`
unfoldable pub has_prefix : GoString → GoString → Bool
has_prefix [] s = true
has_prefix (c ∷ p) [] = false
has_prefix (c ∷ p) (x ∷ s) = c == x && has_prefix p s

pub same_refl : (a : GoString) → same a a ≡ true
unfolding same
same_refl [] = refl
same_refl (x ∷ a) = ground (arith, same_refl a)

pub same→eq : (a b : GoString) → same a b ≡ true → a ≡ b
unfolding same
same→eq [] [] h = refl
same→eq [] (y ∷ b) h = absurd (cc)
same→eq (x ∷ a) [] h = absurd (cc)
same→eq (x ∷ a) (y ∷ b) h =
    let e : x ≡ y = ground arith in
    let t : same a b ≡ true = ground arith in ap (λ u. u ∷ a) e ∙ ap (λ l. y ∷ l) (same→eq a b t)

pub same_ne : (a b : GoString) → a ≢ b → same a b ≡ false
same_ne a b n = elim (Bool-cases (same a b)) [ inl e ↦ absurd (n (same→eq a b e)) | inr e ↦ e ]

module _ {V : Type 0} where
  unfoldable pub lookup : GoString → List (GoString × V) → Option V
  lookup k [] = none
  lookup k ((k', v) ∷ m) = if same k' k then some v else lookup k m

  unfoldable pub delete : GoString → List (GoString × V) → List (GoString × V)
  delete k [] = []
  delete k ((k', v) ∷ m) = let rest = delete k m in if same k' k then rest else (k', v) ∷ rest

  unfoldable pub insert : GoString → V → List (GoString × V) → List (GoString × V)
  insert k v m = (k, v) ∷ delete k m

  pub lookup-delete : (k : GoString) (m : List (GoString × V)) → lookup k (delete k m) ≡ none
  unfolding lookup delete
  lookup-delete k [] = refl
  lookup-delete k ((k', v) ∷ m) = elim (Bool-cases (same k' k)) [
    | inl e ↦ rw (e, delete) (lookup-delete k m)
    | inr e ↦ rw (e, delete) (rw (e, lookup) (lookup-delete k m))
  ]

  pub lookup-delete_ne :
      (k j : GoString) (m : List (GoString × V)) → k ≢ j → lookup j (delete k m) ≡ lookup j m
  unfolding lookup delete
  lookup-delete_ne k j [] n = refl
  lookup-delete_ne k j ((k', v) ∷ m) n = elim (Bool-cases (same k' k)) [
    | inl e ↦
        let other : same k' j ≡ false = same_ne k' j (λ q. n (sym (same→eq k' k e) ∙ q)) in
        rw (e, other) (lookup-delete_ne k j m n)
    | inr e ↦ rw e (ap (λ r. if same k' j then some v else r) (lookup-delete_ne k j m n))
  ]

  pub lookup-insert :
      (k : GoString) (v : V) (m : List (GoString × V)) → lookup k (insert k v m) ≡ some v
  unfolding lookup insert
  lookup-insert k v m = rw (same_refl k)

  pub lookup-insert_ne :
      (k j : GoString) (v : V) (m : List (GoString × V))
      → k ≢ j
      → lookup j (insert k v m) ≡ lookup j m
  unfolding lookup insert
  lookup-insert_ne k j v m n = rw (same_ne k j n) (lookup-delete_ne k j m n)

pub string-cases : (a b : GoString) → (a ≡ b) ⊎ (a ≢ b)
string-cases a b = elim (Bool-cases (same a b)) [
  | inl e ↦ inl (same→eq a b e)
  | inr e ↦ inr (λ q. false≢true (sym e ∙ ap (λ c. same a c) (sym q) ∙ same_refl a))
]
  where
    false≢true : false ≢ true
    false≢true e = absurd (cc)
