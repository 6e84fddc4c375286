-- ===== src/Rtmp/Handshake/Signed.antt =====
-- protocol/rtmp/handshake.go: which block of a client `complexHandshakeC1CheckAndDigest` accepts.
use golive.Common.{
  ℕ, ◌+◌, ◌%◌, ◌≡◌, refl, sym, ap, ◌∙◌, ◌⊎◌, ◌↔◌, inl, inr, Bool-cases, true, some, none, List,
  ◌++◌, length, take, drop,
}
use golive.Common.Go.{ok}
use golive.Common.Go.Strings.{same, same_refl, same→eq}
use golive.Rtmp.Handshake.{
  DigestBlock, hs_client_partial_key, make_c1_digest, schema0, schema1, base_of, buffer,
  complex_handshake_c1_check_and_digest, complex_handshake_c1_check_and_digest_schema,
}
use golive.Rtmp.Handshake.Position.{
  total, position, block_at, parse-block_at, block_at-Cuts, base_of-le, cut_parts,
}

module _ (hmac : List ℕ → List ℕ → List ℕ) where
  -- The buffer carries, where the four bytes at `base` point to, the digest of the rest of it.
  pub record Signed (key : List ℕ) (base : ℕ) (c : List ℕ) : Type 0 where
    pub front : List ℕ
    pub digest : List ℕ
    pub back : List ℕ
    pub parts : c ≡ front ++ (digest ++ back)
    pub digest_size : length digest ≡ 32
    pub place : length front ≡ total (take 4 (drop base c)) % 728 + 4 + base
    pub valid : digest ≡ hmac key (front ++ back)

  -- The cut at the place of a signature.
  Signed-block :
      {key : List ℕ} {base : ℕ} {c : List ℕ} (s : Signed key base c)
      → block_at base (position base c) c ≡ record {
        random1 = s.front;
        digest = s.digest;
        random2 = s.back;
        offset = take 4 (drop base c);
        digest_offset = position base c;
      }
  Signed-block {base} {c} s =
      let p = position base c in
      let (e1, e2, e3) = cut_parts s.front s.digest s.back p 32 (sym s.place) (sym s.digest_size) in
      rw
        (
          ap (take p) s.parts ∙ e1,
          ap (λ l. take 32 (drop p l)) s.parts ∙ e2,
          ap (drop (p + 32)) s.parts ∙ e3,
        )
        refl

  module _ (c : List ℕ) (whole : length c ≡ 1536) where
    abbrev found_block : ℕ → DigestBlock
    found_block schema = block_at (base_of schema) (position (base_of schema) c) c

    schema-some :
        (schema : ℕ)
        → Signed hs_client_partial_key (base_of schema) c
        → complex_handshake_c1_check_and_digest_schema hmac c schema
          ≡ ok (some (found_block schema))
    unfolding complex_handshake_c1_check_and_digest_schema make_c1_digest
    schema-some schema s =
        let found = parse-block_at schema c whole in
        let b = found_block schema in
        let accepts : same b.digest (make_c1_digest hmac b) ≡ true =
          ap (λ (x : DigestBlock). same x.digest (make_c1_digest hmac x)) (Signed-block s)
          ∙ ap (same s.digest) (sym s.valid)
          ∙ same_refl s.digest in
        rw (found, accepts) refl

    schema-none-or :
        (schema : ℕ)
        → (complex_handshake_c1_check_and_digest_schema hmac c schema ≡ ok none)
          ⊎ (Signed hs_client_partial_key (base_of schema) c
              × (complex_handshake_c1_check_and_digest_schema hmac c schema
                  ≡ ok (some (found_block schema))))
    unfolding complex_handshake_c1_check_and_digest_schema make_c1_digest buffer
    schema-none-or schema =
        let b = found_block schema in
        let found = parse-block_at schema c whole in
        let cuts = block_at-Cuts (base_of schema) c (base_of-le schema) whole in
        elim (Bool-cases (same b.digest (make_c1_digest hmac b))) [
          | inl e ↦ inr (
            record {
              front = b.random1;
              digest = b.digest;
              back = b.random2;
              parts = sym cuts.whole;
              digest_size = cuts.digest_size;
              place = cuts.front_size;
              valid = same→eq _ _ e;
            },
            rw (found, e) refl,
          )
          | inr e ↦ inl (rw (found, e) refl)
        ]

    abbrev Accepted : Type 0
    Accepted = (b : DigestBlock) × (complex_handshake_c1_check_and_digest hmac c ≡ ok (some b))

    -- complexHandshakeC1CheckAndDigest finds a block in 1536 bytes if and only if, at one of the two
    -- places that the schemas give, they carry the HMAC of the rest of them under the client's key.
    pub c1_check_iff :
        (Signed hs_client_partial_key (base_of schema0) c
          ⊎ Signed hs_client_partial_key (base_of schema1) c)
        ↔ Accepted
    unfolding complex_handshake_c1_check_and_digest
    c1_check_iff = (to, from)
      where
        to :
            Signed hs_client_partial_key (base_of schema0) c
              ⊎ Signed hs_client_partial_key (base_of schema1) c
            → Accepted
        to (inl s) = (found_block schema0, rw (schema-some schema0 s) refl)
        to (inr s) = elim (schema-none-or schema0) [
          | inl e ↦ (found_block schema1, rw (e, schema-some schema1 s) refl)
          | inr (s0, e) ↦ (found_block schema0, rw e refl)
        ]

        from :
            Accepted
            → Signed hs_client_partial_key (base_of schema0) c
              ⊎ Signed hs_client_partial_key (base_of schema1) c
        from (b, found) = elim (schema-none-or schema0) [
          | inr (s0, e) ↦ inl s0
          | inl e ↦ elim (schema-none-or schema1) [
            | inr (s1, e1) ↦ inr s1
            | inl e1 ↦
                let none_found : complex_handshake_c1_check_and_digest hmac c ≡ ok none =
                  rw (e, e1) refl in
                absurd (cc)
          ]
        ]

    pub c1_check-cases : (complex_handshake_c1_check_and_digest hmac c ≡ ok none) ⊎ Accepted
    unfolding complex_handshake_c1_check_and_digest
    c1_check-cases = elim (schema-none-or schema0) [
      | inr (s0, e) ↦ inr (found_block schema0, rw e refl)
      | inl e ↦ elim (schema-none-or schema1) [
        | inr (s1, e1) ↦ inr (found_block schema1, rw (e, e1) refl)
        | inl e1 ↦ inl (rw (e, e1) refl)
      ]
    ]
