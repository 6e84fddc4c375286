-- ===== src/Rtmp/Handshake/Examples.antt =====
-- protocol/rtmp/handshake.go: runs of the handshake, and the theorems at concrete inputs.
use golive.Common.{
  ℕ, ◌+◌, ◌%◌, ◌≡◌, ◌⊎◌, ◌↔◌, refl, arith, some, none, List, [], ◌∷◌, ◌++◌, length, append_assoc,
  replicate,
}
use golive.Common.Go.{ok, panic, ◌>>=◌}
use golive.Common.Go.Strings.{ascii, same}
use golive.Common.Go.Reader.{Reader, bytes}
use golive.ByteIo.Get.{u32_be, shift_in}
use golive.Rtmp.Handshake.{
  DigestBlock, slice, copy, buffer, offset_sum, base_of, schema0, schema1, make_c1_digest,
  parse_handshake_digest_block, parse_handshake_key, hs_client_full_key, hs_client_partial_key,
  hs_server_partial_key, hs_server_full_key, complex_handshake_c1_check_and_digest_schema,
  complex_handshake_c1_check_and_digest,
}
use golive.Rtmp.Handshake.Server.{Random, random_bytes, handshake_server}
use golive.Rtmp.Handshake.Client.{
  make_c1, make_handshake_key_block, make_handshake_digest_block, handshake_client,
}
use golive.ByteIo.Put.{put_u32_be}
use golive.Rtmp.Handshake.Position.{Cuts, total, parse_handshake_digest_block-Cuts}
use golive.Rtmp.Handshake.Signed.{Signed, c1_check_iff}
use golive.Rtmp.Handshake.Completes.{
  Completes, takes_all, simple_handshake_echoes, complex_handshake_proves,
}
use golive.Rtmp.Handshake.Refusal.{Invites, handshake_server-Invites}
use golive.Rtmp.Handshake.Meets.{handshakes_meet}

-- A function of 32 bytes in place of the HMAC.
abbrev checksum : List ℕ → List ℕ → List ℕ
checksum k d = replicate 32 ((length k + total d) % 256)

checksum-size : (k d : List ℕ) → length (checksum k d) ≡ 32
checksum-size k d = refl

abbrev sevens : Random
sevens i = 7

abbrev nines : Random
nines i = 9

-- A client's block with the version 1 and its digest at the place of schema 0.
abbrev head_1 : List ℕ
head_1 = 0 ∷ 0 ∷ 0 ∷ 0 ∷ 0 ∷ 0 ∷ 0 ∷ 1 ∷ []

abbrev tail_1 : List ℕ
tail_1 = 0 ∷ 0 ∷ 0 ∷ 0 ∷ replicate 32 31 ++ replicate 1492 0

abbrev block_1 : DigestBlock
block_1 = record {
  random1 = head_1 ++ replicate 4 0;
  digest = replicate 32 31;
  random2 = replicate 1492 0;
  offset = replicate 4 0;
  digest_offset = 12;
}

accepts_1 : complex_handshake_c1_check_and_digest checksum (head_1 ++ tail_1) ≡ ok (some block_1)
unfolding complex_handshake_c1_check_and_digest complex_handshake_c1_check_and_digest_schema
    parse_handshake_digest_block slice offset_sum base_of same make_c1_digest hs_client_partial_key
    hs_client_full_key ascii
accepts_1 = refl

key_panics : parse_handshake_key (replicate 764 3) ≡ panic
unfolding parse_handshake_key slice offset_sum
key_panics = refl

-- The digest that the client writes is not the one that the server looks for.
client_digest_refused :
    (make_c1 checksum sevens (replicate 1536 0) schema1
      >>= complex_handshake_c1_check_and_digest checksum)
    ≡ ok none
unfolding complex_handshake_c1_check_and_digest complex_handshake_c1_check_and_digest_schema
    parse_handshake_digest_block slice offset_sum base_of same make_c1_digest hs_client_partial_key
    hs_client_full_key ascii make_c1 make_handshake_key_block make_handshake_digest_block
    random_bytes copy buffer put_u32_be
client_digest_refused = refl

parse_handshake_digest_block-Cuts_example :
    (b : DigestBlock) × (parse_handshake_digest_block (head_1 ++ tail_1) schema1 ≡ ok b)
    × Cuts (base_of schema1) (head_1 ++ tail_1) b
parse_handshake_digest_block-Cuts_example =
    parse_handshake_digest_block-Cuts schema1 (head_1 ++ tail_1) refl

c1_check_iff_example :
    (Signed checksum hs_client_partial_key (base_of schema0) (head_1 ++ tail_1)
      ⊎ Signed checksum hs_client_partial_key (base_of schema1) (head_1 ++ tail_1))
    ↔ ((b : DigestBlock) × (complex_handshake_c1_check_and_digest checksum (head_1 ++ tail_1)
          ≡ ok (some b)))
c1_check_iff_example = c1_check_iff checksum (head_1 ++ tail_1) refl

simple_handshake_echoes_example :
    Completes
      (handshake_server checksum takes_all nines
        (some 3)
        ((replicate 8 0 ++ replicate 1528 5 ++ replicate 1536 6 ++ (1 ∷ [])) ∷ []))
      (3 ∷ (0 ∷ 0 ∷ 0 ∷ 0 ∷ random_bytes 1532 nines) ++ (replicate 8 0 ++ replicate 1528 5))
      (1 ∷ [])
unfolding u32_be shift_in
simple_handshake_echoes_example =
    simple_handshake_echoes checksum nines (some 3)
      ((replicate 8 0 ++ replicate 1528 5 ++ replicate 1536 6 ++ (1 ∷ [])) ∷ []) (replicate 8 0)
      (replicate 1528 5) (replicate 1536 6) (1 ∷ []) refl refl refl refl refl

abbrev stream_1 : Reader
stream_1 = (3 ∷ head_1) ∷ tail_1 ∷ replicate 1536 6 ∷ (1 ∷ []) ∷ []

complex_handshake_proves_example :
    (s1 : List ℕ) × (length s1 ≡ 1536)
    × Signed checksum hs_server_partial_key (base_of schema0) s1
    × (body : List ℕ) × (length body ≡ 1504)
    × Completes
        (handshake_server checksum takes_all nines none stream_1)
        (3 ∷ s1 ++ (body ++ checksum (checksum hs_server_full_key block_1.digest) body))
        (1 ∷ [])
unfolding u32_be shift_in
complex_handshake_proves_example =
    complex_handshake_proves checksum checksum-size nines none stream_1 head_1 tail_1
      (replicate 1536 6) (1 ∷ []) 1 block_1 refl refl refl refl (omega arith) accepts_1 refl

handshake_server-Invites_example :
    ((handshake_server checksum takes_all nines none stream_1).sent ≡ [])
    ⊎ Invites checksum (bytes stream_1)
handshake_server-Invites_example = handshake_server-Invites checksum takes_all nines none stream_1

abbrev to_server : Reader
to_server = ((handshake_client checksum takes_all sevens []).sent ++ replicate 1536 0) ∷ []

abbrev to_client : Reader
to_client = (handshake_server checksum takes_all nines none to_server).sent ∷ []

handshakes_meet_example :
    Completes
      (handshake_server checksum takes_all nines none to_server)
      (handshake_server checksum takes_all nines none to_server).sent
      []
    × Completes
        (handshake_client checksum takes_all sevens to_client)
        ((handshake_client checksum takes_all sevens []).sent ++ replicate 1536 0)
        []
handshakes_meet_example =
    handshakes_meet checksum sevens nines none to_server to_client [] []
      (append_assoc (handshake_client checksum takes_all sevens []).sent (replicate 1536 0) []) refl
