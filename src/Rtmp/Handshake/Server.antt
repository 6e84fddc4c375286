-- ===== src/Rtmp/Handshake/Server.antt =====
-- protocol/rtmp/handshake.go: the server's side, and what it has in common with the client's.
use golive.Common.{ℕ, zero, suc, ◌+◌, ◌-◌, not, Option, some, none, List, [], ◌∷◌, ◌++◌, length}
use golive.Common.{take, drop, replicate, ◌==◌, if◌then◌else◌}
use golive.Common.Go.{
  Result, Error, ok, err, panic, stuck, ◌>>=◌, crypto_not_supported, wrong_version,
  digest_check_fail,
}
use golive.Common.Go.Reader.{Reader, read_full}
use golive.ByteIo.Get.{u32_be}
use golive.ByteIo.Put.{put_u32_be}
use golive.Rtmp.Handshake.{
  copy, buffer, schema0, parse_handshake_digest_block, make_s1_digest, make_s2_digest_key,
  complex_handshake_c1_check_and_digest,
}

-- What `rand.Read` gives, without end; its error is dropped everywhere.
abbrev pub Random : Type 0
Random = ℕ → ℕ

-- The bytes of `rand.Read` for a slice of `n` bytes.
unfoldable pub random_bytes : ℕ → Random → List ℕ
random_bytes zero rand = []
random_bytes (suc n) rand = rand 0 ∷ random_bytes n (λ i. rand (suc i))

-- What is left after `n` bytes.
abbrev pub random_after : ℕ → Random → Random
random_after n rand i = rand (n + i)

-- What a handshake gives to the connection's `Write`, and the connection as it leaves it.
pub record Shaken : Type 0 where
  pub sent : List ℕ
  pub left : Result Reader

-- Before anything is sent.
infixl 5 ◌>>?◌
abbrev pub ◌>>?◌ {ℓ} : {A : Type ℓ} → Result A → (A → Shaken) → Shaken
ok a >>? f = f a
err e >>? f = record { sent = []; left = err e }
panic >>? f = record { sent = []; left = panic }
stuck >>? f = record { sent = []; left = stuck }

abbrev refuse : Error → Shaken
refuse e = record { sent = []; left = err e }

-- `io.ReadFull` into a buffer of `n` bytes that nothing looks at.
unfoldable pub skip_full : ℕ → Reader → Result Reader
skip_full n r = do (b, r') ← read_full n r; ok r'

-- The answer of the connection's `Write`.
module _ (on_write : List ℕ → Option Error) where
  -- `if _, err = rw.Write(b); err != nil { return }`, and what follows
  unfoldable pub write_then : List ℕ → Shaken → Shaken
  write_then b next = elim (on_write b) [
    | none ↦ record next { sent = b ++ next.sent }
    | some e ↦ record { sent = b; left = err e }
  ]

  -- `c1_time_and_version` has the 8 bytes that are read.
  unfoldable pub simple_handshake : Random → Reader → List ℕ → Shaken
  simple_handshake rand r c1_time_and_version = read_full 1528 r >>? λ (rest, r1).
      let c1 = c1_time_and_version ++ rest in
      put_u32_be (replicate 4 0) 0 >>? λ time.
      let s1 = time ++ random_bytes 1532 rand in
      let s2 = c1 in write_then (3 ∷ s1 ++ s2) (record { sent = []; left = skip_full 1536 r1 })

-- `hmac k d` is the HMAC-SHA256 of `d` under the key `k`.
module _ (hmac : List ℕ → List ℕ → List ℕ) where
  unfoldable pub create_complex_s1 : Random → Result (List ℕ)
  create_complex_s1 rand = do
    time ← put_u32_be (replicate 4 0) 0
    version ← put_u32_be (replicate 4 0) 0x0d0e0a0d
    block ← parse_handshake_digest_block (time ++ version ++ random_bytes 1528 rand) schema0
    ok (buffer (make_s1_digest hmac block))

  unfoldable pub create_complex_s2 : Random → List ℕ → List ℕ
  create_complex_s2 rand s2_digest_key =
      let s2 = random_bytes 1536 rand in
      let gap = length s2 - 32 in
      take gap s2 ++ copy (drop gap s2) (hmac s2_digest_key (take gap s2))

  module _ (on_write : List ℕ → Option Error) (rand : Random) where
    unfoldable pub complex_handshake : Reader → List ℕ → Shaken
    complex_handshake r c1_time_and_version = read_full 1528 r >>? λ (rest, r1).
        complex_handshake_c1_check_and_digest hmac (c1_time_and_version ++ rest) >>? λ checked.
        elim checked [
          | none ↦ refuse digest_check_fail
          | some block ↦ create_complex_s1 rand >>? λ s1.
              let s2_digest_key = make_s2_digest_key hmac block in
              let s2 = create_complex_s2 (random_after 1528 rand) s2_digest_key in
              write_then on_write (3 ∷ s1 ++ s2) (record { sent = []; left = skip_full 1536 r1 })
        ]

    -- The answer to the version and the client's block: the whole handshake after the first nine
    -- bytes, the client's version and the rest of them.
    unfoldable pub answer : Reader → ℕ → List ℕ → Shaken
    answer r c0 c1_time_and_version = u32_be (drop 4 c1_time_and_version) >>? λ cliver.
        if not (cliver == 0)
        then (if c0 == 6
            then refuse crypto_not_supported
            else if not (c0 == 3)
            then refuse (wrong_version c0)
            else complex_handshake r c1_time_and_version)
        else if not (c0 == 3)
        then refuse (wrong_version c0)
        else simple_handshake on_write rand r c1_time_and_version

    -- The nine bytes of the header.
    unfoldable pub split_c0 : Reader → List ℕ → Shaken
    split_c0 r [] = record { sent = []; left = panic }
    split_c0 r (c0 ∷ c1_time_and_version) = answer r c0 c1_time_and_version

    -- With the first byte, where the caller has read it.
    unfoldable pub handshake_server : Option ℕ → Reader → Shaken
    handshake_server (some first_byte) r = read_full 8 r >>? λ (b, r1). split_c0 r1 (first_byte ∷ b)
    handshake_server none r = read_full 9 r >>? λ (b, r1). split_c0 r1 b
