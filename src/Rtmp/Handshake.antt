-- ===== src/Rtmp/Handshake.antt =====
-- protocol/rtmp/handshake.go: the digests of the complex handshake. The client's block and S1 have
-- 1536 bytes: the time and the version in four bytes each, and two blocks of 764 bytes: the one
-- with the digest comes first in schema 0, and second in schema 1.
pub mod Server
pub mod Client
pub mod Position
pub mod Signed
pub mod Buffers
pub mod Completes
pub mod Refusal
pub mod Meets
mod Examples
use golive.Common.{ℕ, zero, suc, ◌+◌, ◌-◌, ◌%◌, Bool, true, false, ◌&&◌, Option, some, none}
use golive.Common.{List, [], ◌∷◌, ◌++◌, length, take, drop, leb, ◌==◌, if◌then◌else◌}
use golive.Common.Go.{Result, ok, panic, ◌>>=◌}
use golive.Common.Go.Strings.{ascii, same}

-- The bytes that follow the words in both keys.
abbrev key_bytes : List ℕ
key_bytes =
    0xF0 ∷ 0xEE ∷ 0xC2 ∷ 0x4A ∷ 0x80 ∷ 0x68 ∷ 0xBE ∷ 0xE8 ∷ 0x2E ∷ 0x00 ∷ 0xD0 ∷ 0xD1 ∷ 0x02 ∷ 0x9E
    ∷ 0x7E ∷ 0x57 ∷ 0x6E ∷ 0xEC ∷ 0x5D ∷ 0x2D ∷ 0x29 ∷ 0x80 ∷ 0x6F ∷ 0xAB ∷ 0x93 ∷ 0xB8 ∷ 0xE6
    ∷ 0x36 ∷ 0xCF ∷ 0xEB ∷ 0x31 ∷ 0xAE ∷ []

unfoldable pub hs_client_full_key : List ℕ
hs_client_full_key = ascii "Genuine Adobe Flash Player 001" ++ key_bytes

unfoldable pub hs_server_full_key : List ℕ
hs_server_full_key = ascii "Genuine Adobe Flash Media Server 001" ++ key_bytes

unfoldable pub hs_client_partial_key : List ℕ
hs_client_partial_key = take 30 hs_client_full_key

unfoldable pub hs_server_partial_key : List ℕ
hs_server_partial_key = take 36 hs_server_full_key

-- `b[lo:hi]`, of a slice that ends where its array does.
unfoldable pub slice : ℕ → ℕ → List ℕ → Result (List ℕ)
slice lo hi b = if leb lo hi && leb hi (length b) then ok (take (hi - lo) (drop lo b)) else panic

-- `copy(dst, src)`
unfoldable pub copy : List ℕ → List ℕ → List ℕ
copy [] src = []
copy (d ∷ dst) [] = d ∷ dst
copy (d ∷ dst) (x ∷ src) = x ∷ copy dst src

-- The first three are the buffer of the client's block or S1, cut before and after the digest;
-- `offset` lies in the first.
pub record DigestBlock : Type 0 where
  pub random1 : List ℕ
  pub digest : List ℕ
  pub random2 : List ℕ
  pub offset : List ℕ
  pub digest_offset : ℕ

unfoldable pub buffer : DigestBlock → List ℕ
buffer b = b.random1 ++ (b.digest ++ b.random2)

-- `for i := 0; i < n; i++ { pos += int(offset[i]) }`
unfoldable pub offset_sum : ℕ → List ℕ → Result ℕ
offset_sum zero o = ok 0
offset_sum (suc n) [] = panic
offset_sum (suc n) (b ∷ o) = do s ← offset_sum n o; ok (b + s)

abbrev pub schema0 : ℕ
schema0 = 0

abbrev pub schema1 : ℕ
schema1 = 1

-- Where the digest's block begins.
unfoldable pub base_of : ℕ → ℕ
base_of schema = if schema == schema1 then 764 + 8 else 8

unfoldable pub parse_handshake_digest_block : List ℕ → ℕ → Result DigestBlock
parse_handshake_digest_block c1 schema = do
  first ← slice 8 (764 + 8) c1
  block_data ← if schema == schema1 then slice (base_of schema) 1536 c1 else ok first
  offset ← slice 0 4 block_data
  sum ← offset_sum 4 offset
  let pos = sum % 728 + 4 + base_of schema
  random1 ← slice 0 pos c1
  digest ← slice pos (pos + 32) c1
  random2 ← slice (pos + 32) (length c1) c1
  ok (record {
    random1 = random1;
    digest = digest;
    random2 = random2;
    offset = offset;
    digest_offset = pos;
  })

-- `parseHandshakeKey`: the offset is summed up from `key.key`, which is still nil there.
unfoldable pub parse_handshake_key : List ℕ → Result ℕ
parse_handshake_key b = do offset ← slice 760 764 b; offset_sum 4 []

-- `hmac k d` is the HMAC-SHA256 of `d` under the key `k`.
module _ (hmac : List ℕ → List ℕ → List ℕ) where
  unfoldable pub make_c1_digest : DigestBlock → List ℕ
  make_c1_digest b = hmac hs_client_partial_key (b.random1 ++ b.random2)

  unfoldable pub make_s1_digest : DigestBlock → DigestBlock
  make_s1_digest b = record b {
    digest = copy b.digest (hmac hs_server_partial_key (b.random1 ++ b.random2));
  }

  unfoldable pub make_s2_digest_key : DigestBlock → List ℕ
  make_s2_digest_key b = hmac hs_server_full_key b.digest

  unfoldable pub complex_handshake_c1_check_and_digest_schema :
      List ℕ → ℕ → Result (Option DigestBlock)
  complex_handshake_c1_check_and_digest_schema c1 schema = do
    block ← parse_handshake_digest_block c1 schema
    ok (if same block.digest (make_c1_digest block) then some block else none)

  unfoldable pub complex_handshake_c1_check_and_digest : List ℕ → Result (Option DigestBlock)
  complex_handshake_c1_check_and_digest c1 = do
    found ← complex_handshake_c1_check_and_digest_schema c1 schema0
    elim found [
      | some block ↦ ok (some block)
      | none ↦ complex_handshake_c1_check_and_digest_schema c1 schema1
    ]
