-- ===== src/Rtmp/Handshake/Buffers.antt =====
-- protocol/rtmp/handshake.go: the sizes of the client's block, S1 and S2, and the digests that S1
-- and S2 carry.
use golive.Common.{
  ℕ, zero, suc, ◌+◌, ◌-◌, ◌%◌, ◌≤◌, ◌≡◌, refl, sym, ap, ◌∙◌, arith, List, [], ◌∷◌, ◌++◌, length,
  take, drop, length-append, length-take, length-drop, take-append-drop,
}
use golive.Common.Go.{ok}
use golive.ByteIo.Put.{put_u32_be}
use golive.Rtmp.Handshake.{copy, buffer, hs_server_partial_key, make_s1_digest, schema0, base_of}
use golive.Rtmp.Handshake.Server.{Random, random_bytes, create_complex_s1, create_complex_s2}
use golive.Rtmp.Handshake.Position.{position, block_at, parse-block_at, stretch-append, total}
use golive.Rtmp.Handshake.Signed.{Signed}

pub length-random_bytes : (n : ℕ) (rand : Random) → length (random_bytes n rand) ≡ n
unfolding random_bytes
length-random_bytes zero rand = refl
length-random_bytes (suc n) rand = ap suc (length-random_bytes n (λ i. rand (suc i)))

pub copy_whole : (dst src : List ℕ) → length dst ≡ length src → copy dst src ≡ src
unfolding copy
copy_whole [] [] h = refl
copy_whole [] (x ∷ src) h = absurd (omega arith)
copy_whole (d ∷ dst) [] h = absurd (omega arith)
copy_whole (d ∷ dst) (x ∷ src) h = ap (λ l. x ∷ l) (copy_whole dst src (omega arith))

-- The HMAC-SHA256 has 32 bytes.
module _ (hmac : List ℕ → List ℕ → List ℕ) (size_32 : (k d : List ℕ) → length (hmac k d) ≡ 32) where
  -- A buffer into which the digest is copied at its place.
  module _ (c : List ℕ) (whole : length c ≡ 1536) where
    abbrev place : ℕ
    place = position 8 c

    abbrev signature : List ℕ
    signature = hmac hs_server_partial_key (take place c ++ drop (place + 32) c)

    abbrev written : List ℕ
    written = take place c ++ (signature ++ drop (place + 32) c)

    -- The bytes before the place are those of `c`.
    kept : (n k : ℕ) → k + n ≤ place → take n (drop k written) ≡ take n (drop k c)
    kept n k h =
        let size : length (take place c) ≡ place = length-take place c (omega (arith, whole)) in
        let tail = signature ++ drop (place + 32) c in
        stretch-append n k (take place c) tail (omega arith)
        ∙ sym (stretch-append n k (take place c) (drop place c) (omega arith))
        ∙ ap (λ l. take n (drop k l)) (take-append-drop place c)

    s1_buffer : buffer (make_s1_digest hmac (block_at 8 place c)) ≡ written
    unfolding buffer make_s1_digest
    s1_buffer =
        let old = take 32 (drop place c) in
        let size : length old ≡ 32 =
          length-take 32 (drop place c) (omega (arith, length-drop place c, whole)) in
        ap (λ d. take place c ++ (d ++ drop (place + 32) c))
          (copy_whole old signature (size ∙ sym (size_32 _ _)))

    written-Signed : Signed hmac hs_server_partial_key (base_of schema0) written
    unfolding base_of
    written-Signed = record {
      front = take place c;
      digest = signature;
      back = drop (place + 32) c;
      parts = refl;
      digest_size = size_32 _ _;
      place =
          length-take place c (omega (arith, whole))
          ∙ ap (λ o. total o % 728 + 4 + 8) (sym (kept 4 8 (omega arith)));
      valid = refl;
    }

    length-written : length written ≡ 1536
    length-written =
        let front_size : length (take place c) ≡ place =
          length-take place c (omega (arith, whole)) in
        let digest_size : length signature ≡ 32 = size_32 _ _ in
        let back = drop (place + 32) c in
        omega (
          arith,
          length-append (take place c) (signature ++ back),
          length-append signature back,
          length-drop (place + 32) c,
          whole,
        )

  -- S1 has 1536 bytes, begins with the time 0 and the version, and carries the digest under the server's
  -- key at the place of schema 0.
  pub create_complex_s1-Signed :
      (rand : Random)
      → (s1 : List ℕ) × (create_complex_s1 hmac rand ≡ ok s1)
        × (length s1 ≡ 1536)
        × (take 8 s1 ≡ 0 ∷ 0 ∷ 0 ∷ 0 ∷ 0x0d ∷ 0x0e ∷ 0x0a ∷ 0x0d ∷ [])
        × Signed hmac hs_server_partial_key (base_of schema0) s1
  unfolding create_complex_s1 put_u32_be base_of
  create_complex_s1-Signed rand =
      let head : List ℕ = 0 ∷ 0 ∷ 0 ∷ 0 ∷ 0x0d ∷ 0x0e ∷ 0x0a ∷ 0x0d ∷ [] in
      let c = head ++ random_bytes 1528 rand in
      let whole : length c ≡ 1536 = omega (arith, length-random_bytes 1528 rand) in
      (
        written c whole,
        rw (parse-block_at schema0 c whole) (ap ok (s1_buffer c whole)),
        length-written c whole,
        kept c whole 8 0 (omega arith),
        written-Signed c whole,
      )

  -- S2 has 1536 bytes, the last 32 of them the digest of the others.
  pub create_complex_s2-ends :
      (rand : Random) (key : List ℕ)
      → (body : List ℕ) × (length body ≡ 1504)
        × (create_complex_s2 hmac rand key ≡ body ++ hmac key body)
  unfolding create_complex_s2
  create_complex_s2-ends rand key =
      let s2 = random_bytes 1536 rand in
      let size : length s2 ≡ 1536 = length-random_bytes 1536 rand in
      let body = take 1504 s2 in
      let gap : length s2 - 32 ≡ 1504 = omega arith in
      (
        body,
        length-take 1504 s2 (omega arith),
        rw gap (
            ap (λ l. body ++ l)
              (copy_whole (drop 1504 s2) (hmac key body)
                (length-drop 1504 s2 ∙ ap (λ n. n - 1504) size ∙ sym (size_32 key body)))),
      )
