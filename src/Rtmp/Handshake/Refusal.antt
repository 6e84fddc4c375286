-- ===== src/Rtmp/Handshake/Refusal.antt =====
-- protocol/rtmp/handshake.go: what the server answers at all.
use golive.Common.{
  ℕ, ◌≡◌, refl, sym, ap, ◌∙◌, arith, ◌⊎◌, inl, inr, Bool-cases, Option, some, none, ◌==◌, List, [],
  ◌∷◌, ◌++◌, length, drop, length-append,
}
use golive.Common.Go.{Error, Result, ok, err, panic, stuck}
use golive.Common.Go.Reader.{Reader, bytes, read_full, read_full-cases}
use golive.ByteIo.Get.{u32_be}
use golive.Rtmp.Handshake.{hs_client_partial_key, schema0, schema1, base_of}
use golive.Rtmp.Handshake.Server.{
  Random, Shaken, ◌>>?◌, complex_handshake, simple_handshake, answer, split_c0, handshake_server,
}
use golive.Rtmp.Handshake.Signed.{Signed, c1_check_iff, c1_check-cases}
use golive.Rtmp.Handshake.Completes.{arrived}

-- What is sent after a step, where the step gives a value.
after_step :
    {A Q : Type 0} (x : Result A) (f : A → Shaken)
    → ((a : A) → x ≡ ok a → ((f a).sent ≡ []) ⊎ Q)
    → ((x >>? f).sent ≡ []) ⊎ Q
after_step (ok a) f g = g a refl
after_step (err e) f g = inl refl
after_step panic f g = inl refl
after_step stuck f g = inl refl

-- What a read that returns has read.
read_full-ok :
    (n : ℕ) (r : Reader) (xs : List ℕ) (r' : Reader)
    → read_full n r ≡ ok (xs, r')
    → (length xs ≡ n) × (bytes r ≡ xs ++ bytes r')
read_full-ok n r xs r' e = elim (read_full-cases n r) [
  | inl (e', q) ↦ absurd (cc)
  | inr (ys, size, r'', q, all) ↦
      let same_bytes : ys ≡ xs = cc in
      let same_rest : r'' ≡ r' = cc in
      (ap length (sym same_bytes) ∙ size, rw (same_bytes, same_rest) at all)
]

module _ (hmac : List ℕ → List ℕ → List ℕ) where
  -- A stream that the server may answer: the version and the client's block, with the version 0 or
  -- with a digest.
  pub record Invites (stream : List ℕ) : Type 0 where
    pub time_and_version : List ℕ
    pub tail : List ℕ
    pub more : List ℕ
    pub eight : length time_and_version ≡ 8
    pub tail_size : length tail ≡ 1528
    pub layout : stream ≡ 3 ∷ (time_and_version ++ (tail ++ more))
    pub simple_or_signed :
        (u32_be (drop 4 time_and_version) ≡ ok 0)
        ⊎ (Signed hmac hs_client_partial_key (base_of schema0) (time_and_version ++ tail)
            ⊎ Signed hmac hs_client_partial_key (base_of schema1) (time_and_version ++ tail))

  module _ (on_write : List ℕ → Option Error) (rand : Random) where
    simple-Invites :
        (r : Reader) (tv : List ℕ)
        → length tv ≡ 8
        → u32_be (drop 4 tv) ≡ ok 0
        → ((simple_handshake on_write rand r tv).sent ≡ []) ⊎ Invites (3 ∷ (tv ++ bytes r))
    unfolding simple_handshake
    simple-Invites r tv h version = after_step (read_full 1528 r) _ (λ (rest, r1) read.
        let (size, all) = read_full-ok 1528 r rest r1 read in
        inr (record {
          time_and_version = tv;
          tail = rest;
          more = bytes r1;
          eight = h;
          tail_size = size;
          layout = ap (λ l. 3 ∷ (tv ++ l)) all;
          simple_or_signed = inl version;
        }))

    complex-Invites :
        (r : Reader) (tv : List ℕ)
        → length tv ≡ 8
        → ((complex_handshake hmac on_write rand r tv).sent ≡ []) ⊎ Invites (3 ∷ (tv ++ bytes r))
    unfolding complex_handshake
    complex-Invites r tv h = after_step (read_full 1528 r) _ (λ (rest, r1) read.
        let (size, all) = read_full-ok 1528 r rest r1 read in
        let whole : length (tv ++ rest) ≡ 1536 = omega (arith, length-append tv rest) in
        elim (c1_check-cases hmac (tv ++ rest) whole) [
          | inl none_found ↦ inl (rw none_found refl)
          | inr accepted ↦ inr (record {
            time_and_version = tv;
            tail = rest;
            more = bytes r1;
            eight = h;
            tail_size = size;
            layout = ap (λ l. 3 ∷ (tv ++ l)) all;
            simple_or_signed = inr ((c1_check_iff hmac (tv ++ rest) whole).1 accepted);
          })
        ])

    answer-Invites :
        (r : Reader) (c0 : ℕ) (tv : List ℕ)
        → length tv ≡ 8
        → ((answer hmac on_write rand r c0 tv).sent ≡ []) ⊎ Invites (c0 ∷ (tv ++ bytes r))
    unfolding answer
    answer-Invites r c0 tv h = after_step (u32_be (drop 4 tv)) _ (λ cliver version.
        elim (Bool-cases (c0 == 3)) [
          | inl three ↦
              let c0_3 : c0 ≡ 3 = ground arith in
              elim (Bool-cases (cliver == 0)) [
                | inl zero_version ↦
                    let cliver_0 : cliver ≡ 0 = ground arith in
                    rw (zero_version, c0_3) (simple-Invites r tv h (version ∙ ap ok cliver_0))
                | inr e ↦ rw (e, c0_3) (complex-Invites r tv h)
              ]
          | inr other ↦ elim (Bool-cases (cliver == 0)) [
            | inl e ↦ inl (rw (e, other) refl)
            | inr e ↦ elim (Bool-cases (c0 == 6)) [
              | inl six ↦ inl (rw (e, six) refl)
              | inr s ↦ inl (rw (e, s, other) refl)
            ]
          ]
        ])

    split_c0-Invites :
        (r : Reader) (b : List ℕ)
        → length b ≡ 9
        → ((split_c0 hmac on_write rand r b).sent ≡ []) ⊎ Invites (b ++ bytes r)
    unfolding split_c0
    split_c0-Invites r [] h = inl refl
    split_c0-Invites r (c0 ∷ tv) h = answer-Invites r c0 tv (omega arith)

    -- Whatever a connection sends, and whatever it answers to the write: the server sends nothing,
    -- or the connection has sent the version 3 and a block of 1536 bytes, which has the version 0
    -- in its fifth to eighth byte, or carries the digest of the rest of it under the client's key,
    -- at the place of one of the two schemas.
    pub handshake_server-Invites :
        (first : Option ℕ) (r : Reader)
        → ((handshake_server hmac on_write rand first r).sent ≡ [])
          ⊎ Invites (arrived first (bytes r))
    unfolding handshake_server
    handshake_server-Invites none r = after_step (read_full 9 r) _ (λ (b, r1) read.
        let (size, all) = read_full-ok 9 r b r1 read in rw all (split_c0-Invites r1 b size))
    handshake_server-Invites (some x) r = after_step (read_full 8 r) _ (λ (b, r1) read.
        let (size, all) = read_full-ok 8 r b r1 read in
        rw all (split_c0-Invites r1 (x ∷ b) (omega arith)))
