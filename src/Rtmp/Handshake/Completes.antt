-- ===== src/Rtmp/Handshake/Completes.antt =====
-- protocol/rtmp/handshake.go: the server's side of a handshake that completes.
use golive.Common.{
  ℕ, ◌≡◌, ◌≢◌, refl, sym, ap, ◌∙◌, arith, false, Option, some, none, ◌==◌, List, [], ◌∷◌, ◌++◌,
  length, drop, append-nil,
}
use golive.Common.Go.{Error, ok}
use golive.Common.Go.Reader.{Reader, bytes, read_full, read_full-prefix, Reads}
use golive.ByteIo.Get.{u32_be}
use golive.ByteIo.Put.{put_u32_be}
use golive.Rtmp.Handshake.{
  DigestBlock, hs_server_partial_key, hs_server_full_key, schema0, base_of, make_s2_digest_key,
  complex_handshake_c1_check_and_digest,
}
use golive.Rtmp.Handshake.Server.{
  Random, random_bytes, random_after, Shaken, skip_full, write_then, simple_handshake,
  complex_handshake, answer, handshake_server, split_c0,
}
use golive.Rtmp.Handshake.Signed.{Signed}
use golive.Rtmp.Handshake.Buffers.{create_complex_s1-Signed, create_complex_s2-ends}

-- A connection that takes all that is written.
abbrev pub takes_all : List ℕ → Option Error
takes_all b = none

-- The handshake ends without an error, has sent `s`, and leaves the bytes `rest`.
pub record Completes (o : Shaken) (s : List ℕ) (rest : List ℕ) : Type 0 where
  pub sent_all : o.sent ≡ s
  pub reader : Reader
  pub leaves : o.left ≡ ok reader
  pub unread : bytes reader ≡ rest

-- A prefix of a known number of bytes.
pub read_full_sized :
    (n : ℕ) (xs rest : List ℕ) (r : Reader)
    → length xs ≡ n
    → bytes r ≡ xs ++ rest
    → Reads (read_full n) r xs rest
read_full_sized n xs rest r h e =
    let (r', p, q) = read_full-prefix xs rest r e in (r', ap (λ k. read_full k r) (sym h) ∙ p, q)

-- The end of the server's side: what it sends, and the client's echo.
pub sends_and_skips :
    (s c2 rest : List ℕ) (r : Reader)
    → length c2 ≡ 1536
    → bytes r ≡ c2 ++ rest
    → Completes (write_then takes_all s (record { sent = []; left = skip_full 1536 r })) s rest
unfolding write_then skip_full
sends_and_skips s c2 rest r h e =
    let (r', p, q) = read_full_sized 1536 c2 rest r h e in
    record { sent_all = append-nil s; reader = r'; leaves = rw p refl; unread = q }

-- The first byte, where the caller has read it, and what the connection has.
abbrev pub arrived : Option ℕ → List ℕ → List ℕ
arrived none b = b
arrived (some x) b = x ∷ b

module _ (hmac : List ℕ → List ℕ → List ℕ) (on_write : List ℕ → Option Error) (rand : Random) where
  -- The first byte, and the time and the version, are read before anything else.
  pub handshake_server-answer :
      (first : Option ℕ) (r : Reader) (c0 : ℕ) (tv more : List ℕ)
      → length tv ≡ 8
      → arrived first (bytes r) ≡ c0 ∷ (tv ++ more)
      → (r' : Reader) × (handshake_server hmac on_write rand first r
          ≡ answer hmac on_write rand r' c0 tv)
        × (bytes r' ≡ more)
  unfolding handshake_server split_c0
  handshake_server-answer none r c0 tv more h e =
      let (r', p, q) = read_full_sized 9 (c0 ∷ tv) more r (omega arith) e in (r', rw p refl, q)
  handshake_server-answer (some x) r c0 tv more h e =
      let same_byte : x ≡ c0 = cc in
      let same_rest : bytes r ≡ tv ++ more = cc in
      let (r', p, q) = read_full_sized 8 tv more r h same_rest in
      (r', rw p (ap (λ c. answer hmac on_write rand r' c tv) same_byte), q)

-- The rest of the client's block has 1528 bytes, and the client's echo has 1536.
module _ (rand : Random) (tail c2 rest : List ℕ) (r : Reader) (tail_size : length tail ≡ 1528)
    (c2_size : length c2 ≡ 1536) (stream : bytes r ≡ tail ++ (c2 ++ rest)) where
  pub simple_handshake-Completes :
      (tv : List ℕ)
      → Completes
          (simple_handshake takes_all rand r tv)
          (3 ∷ (0 ∷ 0 ∷ 0 ∷ 0 ∷ random_bytes 1532 rand) ++ (tv ++ tail))
          rest
  unfolding simple_handshake put_u32_be
  simple_handshake-Completes tv =
      let (r', p, q) = read_full_sized 1528 tail (c2 ++ rest) r tail_size stream in
      rw p (sends_and_skips _ c2 rest r' c2_size q)

  -- What the server answers a client's block with the block `b`.
  pub complex_handshake-Completes :
      (hmac : List ℕ → List ℕ → List ℕ) (size_32 : (k d : List ℕ) → length (hmac k d) ≡ 32)
      (tv : List ℕ) (b : DigestBlock)
      → complex_handshake_c1_check_and_digest hmac (tv ++ tail) ≡ ok (some b)
      → (s1 : List ℕ) × (length s1 ≡ 1536)
        × Signed hmac hs_server_partial_key (base_of schema0) s1
        × (body : List ℕ) × (length body ≡ 1504)
        × Completes
            (complex_handshake hmac takes_all rand r tv)
            (3 ∷ s1 ++ (body ++ hmac (make_s2_digest_key hmac b) body))
            rest
  unfolding complex_handshake
  complex_handshake-Completes hmac size_32 tv b found =
      let (r', p, q) = read_full_sized 1528 tail (c2 ++ rest) r tail_size stream in
      let (s1, made1, size1, head, signed) = create_complex_s1-Signed hmac size_32 rand in
      let (body, size2, made2) =
        create_complex_s2-ends hmac size_32 (random_after 1528 rand) (make_s2_digest_key hmac b) in
      (
        s1,
        size1,
        signed,
        body,
        size2,
        rw (p, found, made1, made2) (sends_and_skips _ c2 rest r' c2_size q),
      )

-- The program's conditions on the first byte and the version.
module _ (hmac : List ℕ → List ℕ → List ℕ) (rand : Random) (r : Reader) where
  answer-simple :
      (tv : List ℕ)
      → u32_be (drop 4 tv) ≡ ok 0
      → answer hmac takes_all rand r 3 tv ≡ simple_handshake takes_all rand r tv
  unfolding answer
  answer-simple tv e = rw e refl

  answer-complex :
      (tv : List ℕ) (v : ℕ)
      → u32_be (drop 4 tv) ≡ ok v
      → v ≢ 0
      → answer hmac takes_all rand r 3 tv ≡ complex_handshake hmac takes_all rand r tv
  unfolding answer
  answer-complex tv v e n = let nonzero : (v == 0) ≡ false = ground arith in rw (e, nonzero) refl

-- On a connection that takes all that is written, a client sends the version 3, a block with the
-- version 0 in its fifth to eighth byte, and an echo
-- of 1536 bytes, however the stream is cut into segments, and whether or not the first byte has
-- been read: the handshake ends without an error, the server has sent S0, S1 and as S2 a copy of
-- the client's block, and what follows the echo is left.
pub simple_handshake_echoes :
    (hmac : List ℕ → List ℕ → List ℕ) (rand : Random) (first : Option ℕ) (r : Reader)
    (tv tail c2 rest : List ℕ)
    → length tv ≡ 8
    → length tail ≡ 1528
    → length c2 ≡ 1536
    → u32_be (drop 4 tv) ≡ ok 0
    → arrived first (bytes r) ≡ 3 ∷ (tv ++ (tail ++ (c2 ++ rest)))
    → Completes
        (handshake_server hmac takes_all rand first r)
        (3 ∷ (0 ∷ 0 ∷ 0 ∷ 0 ∷ random_bytes 1532 rand) ++ (tv ++ tail))
        rest
simple_handshake_echoes hmac rand first r tv tail c2 rest h8 htail hc2 version e =
    let (r1, p, q) =
      handshake_server-answer hmac takes_all rand first r 3 tv (tail ++ (c2 ++ rest)) h8 e in
    rw (p, answer-simple hmac rand r1 tv version)
      (simple_handshake-Completes rand tail c2 rest r1 htail hc2 q tv)

-- The HMAC-SHA256 has 32 bytes. On a connection that takes all that is written, a client sends the
-- version 3, a block with another version than 0 in its fifth to eighth byte and with a digest that the
-- server accepts, and an echo of 1536 bytes, however the stream is cut into segments, and whether
-- or not the first byte has been read: the handshake ends without an error, what follows the echo
-- is left, and the server has sent S0, an S1 of 1536 bytes that carries the digest of the rest of
-- it under the server's key, and an S2 that ends in the digest of its first 1504 bytes, under the
-- key that is the digest of the digest of the client's block.
pub complex_handshake_proves :
    (hmac : List ℕ → List ℕ → List ℕ) (size_32 : (k d : List ℕ) → length (hmac k d) ≡ 32)
    (rand : Random) (first : Option ℕ) (r : Reader) (tv tail c2 rest : List ℕ) (v : ℕ)
    (b : DigestBlock)
    → length tv ≡ 8
    → length tail ≡ 1528
    → length c2 ≡ 1536
    → u32_be (drop 4 tv) ≡ ok v
    → v ≢ 0
    → complex_handshake_c1_check_and_digest hmac (tv ++ tail) ≡ ok (some b)
    → arrived first (bytes r) ≡ 3 ∷ (tv ++ (tail ++ (c2 ++ rest)))
    → (s1 : List ℕ) × (length s1 ≡ 1536)
      × Signed hmac hs_server_partial_key (base_of schema0) s1
      × (body : List ℕ) × (length body ≡ 1504)
      × Completes
          (handshake_server hmac takes_all rand first r)
          (3 ∷ s1 ++ (body ++ hmac (hmac hs_server_full_key b.digest) body))
          rest
unfolding make_s2_digest_key
complex_handshake_proves hmac size_32 rand first r tv tail c2 rest v b h8 htail hc2 version n found
      e =
    let (r1, p, q) =
      handshake_server-answer hmac takes_all rand first r 3 tv (tail ++ (c2 ++ rest)) h8 e in
    rw (p, answer-complex hmac rand r1 tv v version n)
      (complex_handshake-Completes rand tail c2 rest r1 htail hc2 q hmac size_32 tv b found)
