-- ===== src/Rtmp/Handshake/Client.antt =====
-- protocol/rtmp/handshake.go: the client's side.
use golive.Common.{ℕ, ◌+◌, ◌*◌, ◌%◌, Option, List, [], ◌∷◌, ◌++◌, length, drop, replicate}
use golive.Common.{◌==◌, if◌then◌else◌}
use golive.Common.Go.{Result, Error, ok, ◌>>=◌}
use golive.Common.Go.Reader.{Reader}
use golive.ByteIo.Put.{put_u32_be}
use golive.Rtmp.Handshake.{
  DigestBlock, slice, copy, buffer, offset_sum, base_of, schema1, make_c1_digest,
}
use golive.Rtmp.Handshake.Server.{
  Random, random_bytes, random_after, Shaken, ◌>>?◌, skip_full, write_then,
}

-- `makeHandshakeKeyBlock`: the block as it is written. The parts are filled in this order, so that
-- `random2` covers the four bytes of the offset, which end the block.
unfoldable pub make_handshake_key_block : Random → List ℕ → Result (List ℕ)
make_handshake_key_block rand block_data = do
  before ← slice 0 760 block_data
  room ← slice 760 764 block_data
  let offset = random_bytes (length room) rand
  sum ← offset_sum 4 offset
  let pos = sum % 728 + 4
  let filled = before ++ offset ++ drop 764 block_data
  random1 ← slice 0 pos filled
  key ← slice pos (pos + 32) filled
  random2 ← slice (pos + 32) (length block_data) filled
  let rand1 = random_after 4 rand
  let rand2 = random_after (length random1) rand1
  let rand3 = random_after (length random2) rand2
  ok (
      random_bytes (length random1) rand1
      ++ random_bytes (length key) rand3
      ++ random_bytes (length random2) rand2)

-- `hmac k d` is the HMAC-SHA256 of `d` under the key `k`.
module _ (hmac : List ℕ → List ℕ → List ℕ) where
  -- `makeHandshakeDigestBlock`: the block as it is written. `random1` covers the four bytes of the
  -- offset, which begin the block, and the digest is that of the block alone.
  unfoldable pub make_handshake_digest_block : Random → List ℕ → Result (List ℕ)
  make_handshake_digest_block rand block_data = do
    room ← slice 0 4 block_data
    let offset = random_bytes (length room) rand
    sum ← offset_sum 4 offset
    let pos = sum % 728 + 4
    let filled = offset ++ drop 4 block_data
    random1 ← slice 0 pos filled
    digest ← slice pos (pos + 32) filled
    random2 ← slice (pos + 32) (length block_data) filled
    let rand1 = random_after 4 rand
    let rand2 = random_after (length random1) rand1
    let block : DigestBlock = record {
      random1 = random_bytes (length random1) rand1;
      digest = digest;
      random2 = random_bytes (length random2) rand2;
      offset = offset;
      digest_offset = pos;
    }
    ok (buffer (record block { digest = copy block.digest (make_c1_digest hmac block) }))

  -- `makeC1`, into a buffer that is given.
  unfoldable pub make_c1 : Random → List ℕ → ℕ → Result (List ℕ)
  make_c1 rand room schema = do
    c1 ← put_u32_be room 0
    head ← slice 0 8 c1
    first ← slice 8 (764 + 8) c1
    second ← slice (764 + 8) (length c1) c1
    digest_block_data ← if schema == schema1 then slice (base_of schema) 1536 c1 else ok second
    key_block_data ← if schema == schema1 then slice 8 (base_of schema) c1 else ok first
    key ← make_handshake_key_block rand key_block_data
    digest ← make_handshake_digest_block (random_after 768 rand) digest_block_data
    ok (head ++ key ++ digest)

  -- `HandshakeClient`. What the server sends is read and not looked at, and the client's echo is
  -- never filled.
  unfoldable pub handshake_client : (List ℕ → Option Error) → Random → Reader → Shaken
  handshake_client on_write rand r = make_c1 rand (replicate 1536 0) schema1 >>? λ c1.
      write_then on_write (3 ∷ c1) (
        skip_full (1536 * 2 + 1) r >>? λ r1.
        write_then on_write (replicate 1536 0) (record { sent = []; left = ok r1 }))
