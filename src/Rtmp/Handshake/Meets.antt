-- ===== src/Rtmp/Handshake/Meets.antt =====
-- protocol/rtmp/handshake.go: the client and the server of the program with each other.
use golive.Common.{
  ℕ, zero, suc, ◌+◌, ◌-◌, ◌%◌, ◌≤◌, ◌≡◌, refl, sym, ap, ◌∙◌, arith, Option, List, [], ◌∷◌, ◌++◌,
  length, take, drop, replicate, length-append, length-take, length-drop, append_assoc, append-nil,
}
use golive.Common.Go.{Result, ok, err, panic, stuck}
use golive.ByteIo.Get.{u32_be, shift_in}
use golive.Common.Go.Reader.{Reader, bytes, read_full_end}
use golive.ByteIo.Put.{put_u32_be}
use golive.Rtmp.Handshake.{slice, copy, buffer, base_of, schema1}
use golive.Rtmp.Handshake.Server.{
  Random, random_bytes, random_after, skip_full, write_then, handshake_server,
}
use golive.Rtmp.Handshake.Client.{
  make_handshake_key_block, make_handshake_digest_block, make_c1, handshake_client,
}
use golive.Rtmp.Handshake.Position.{slice-eq, offset_sum-total, total}
use golive.Rtmp.Written.{Gives, gives, Gives-bind, Gives-ok}
use golive.Rtmp.Handshake.Buffers.{length-random_bytes}
use golive.Rtmp.Handshake.Completes.{
  takes_all, Completes, arrived, read_full_sized, simple_handshake_echoes,
}

-- A slice within the bounds.
slice-length :
    (lo hi : ℕ) (b : List ℕ)
    → lo ≤ hi
    → hi ≤ length b
    → (s : List ℕ) × (slice lo hi b ≡ ok s) × (length s ≡ hi - lo)
slice-length lo hi b h1 h2 = (
  take (hi - lo) (drop lo b),
  slice-eq lo hi b h1 h2,
  length-take (hi - lo) (drop lo b) (omega (arith, length-drop lo b)),
)

length-copy : (dst src : List ℕ) → length (copy dst src) ≡ length dst
unfolding copy
length-copy [] src = refl
length-copy (d ∷ dst) [] = refl
length-copy (d ∷ dst) (x ∷ src) = ap suc (length-copy dst src)

three-length :
    (a k c : List ℕ) (pos : ℕ)
    → length a ≡ pos - 0
    → length k ≡ pos + 32 - pos
    → length c ≡ 764 - (pos + 32)
    → pos + 32 ≤ 764
    → length (a ++ k ++ c) ≡ 764
three-length a k c pos ha hk hc h = omega (arith, length-append (a ++ k) c, length-append a k)

key_block-length :
    (rand : Random) (b : List ℕ)
    → length b ≡ 764
    → Gives (λ k. length k ≡ 764) (make_handshake_key_block rand b)
unfolding make_handshake_key_block
key_block-length rand b h =
    let (before, p1, l1) = slice-length 0 760 b (omega arith) (omega arith) in
    let (room, p2, l2) = slice-length 760 764 b (omega arith) (omega arith) in
    let offset = random_bytes (length room) rand in
    let offset_size : length offset ≡ 4 = length-random_bytes (length room) rand ∙ l2 in
    let pos = total offset % 728 + 4 in
    let filled = before ++ offset ++ drop 764 b in
    let size : length filled ≡ 764 = omega (
      arith,
      length-append (before ++ offset) (drop 764 b),
      length-append before offset,
      length-drop 764 b,
    ) in
    let (r1, p3, l3) = slice-length 0 pos filled (omega arith) (omega arith) in
    let (key, p4, l4) = slice-length pos (pos + 32) filled (omega arith) (omega arith) in
    let (r2, p5, l5) = slice-length (pos + 32) (length b) filled (omega arith) (omega arith) in
    let w1 = random_bytes (length r1) (random_after 4 rand) in
    let w2 = random_bytes (length r2) (random_after (length r1) (random_after 4 rand)) in
    let wk =
      random_bytes (length key)
        (random_after (length r2) (random_after (length r1) (random_after 4 rand))) in
    rw (p1, p2, offset_sum-total 4 offset offset_size, p3, p4, p5)
      (gives (
        three-length w1 wk w2 pos (length-random_bytes _ _ ∙ l3) (length-random_bytes _ _ ∙ l4)
          (length-random_bytes _ _ ∙ l5 ∙ ap (λ n. n - (pos + 32)) h) (omega arith)))

digest_block-length :
    (hmac : List ℕ → List ℕ → List ℕ) (rand : Random) (b : List ℕ)
    → length b ≡ 764
    → Gives (λ k. length k ≡ 764) (make_handshake_digest_block hmac rand b)
unfolding make_handshake_digest_block buffer
digest_block-length hmac rand b h =
    let (room, p1, l1) = slice-length 0 4 b (omega arith) (omega arith) in
    let offset = random_bytes (length room) rand in
    let offset_size : length offset ≡ 4 = length-random_bytes (length room) rand ∙ l1 in
    let pos = total offset % 728 + 4 in
    let filled = offset ++ drop 4 b in
    let size : length filled ≡ 764 =
      omega (arith, length-append offset (drop 4 b), length-drop 4 b) in
    let (r1, p3, l3) = slice-length 0 pos filled (omega arith) (omega arith) in
    let (old, p4, l4) = slice-length pos (pos + 32) filled (omega arith) (omega arith) in
    let (r2, p5, l5) = slice-length (pos + 32) (length b) filled (omega arith) (omega arith) in
    let w1 = random_bytes (length r1) (random_after 4 rand) in
    let w2 = random_bytes (length r2) (random_after (length r1) (random_after 4 rand)) in
    rw (p1, offset_sum-total 4 offset offset_size, p3, p4, p5)
      (gives (
        ap length (sym (append_assoc w1 _ w2))
        ∙ three-length w1 _ w2 pos (length-random_bytes _ _ ∙ l3) (length-copy old _ ∙ l4)
            (length-random_bytes _ _ ∙ l5 ∙ ap (λ n. n - (pos + 32)) h) (omega arith)))

abbrev zeros_8 : List ℕ
zeros_8 = 0 ∷ 0 ∷ 0 ∷ 0 ∷ 0 ∷ 0 ∷ 0 ∷ 0 ∷ []

-- The client's block begins with the time 0 and the version 0.
make_c1-Gives :
    (hmac : List ℕ → List ℕ → List ℕ) (rand : Random) (body : List ℕ)
    → length body ≡ 1528
    → Gives
        (λ c1. (tail : List ℕ) × (length tail ≡ 1528) × (c1 ≡ zeros_8 ++ tail))
        (make_c1 hmac rand (zeros_8 ++ body) schema1)
unfolding make_c1 put_u32_be base_of
make_c1-Gives hmac rand body h =
    let zb : List ℕ = zeros_8 ++ body in
    let size : length zb ≡ 1536 = omega (arith, h) in
    let e1 : slice 0 8 zb ≡ ok zeros_8 = slice-eq 0 8 zb (omega arith) (omega arith) in
    let (first, e2, l2) = slice-length 8 772 zb (omega arith) (omega arith) in
    let (second, e3, l3) = slice-length 772 (length zb) zb (omega arith) (omega arith) in
    let (back, e4, l4) = slice-length 772 1536 zb (omega arith) (omega arith) in
    rw (e1, e2, e3, e4)
      (Gives-bind (make_handshake_key_block rand first) _ (key_block-length rand first l2)
        (λ key lk.
          Gives-bind (make_handshake_digest_block hmac (random_after 768 rand) back) _
            (digest_block-length hmac (random_after 768 rand) back l4)
            (λ digest ld. gives (key ++ digest, omega (arith, length-append key digest), refl))))

length-replicate : (n x : ℕ) → length (replicate n x) ≡ n
length-replicate zero x = refl
length-replicate (suc n) x = ap suc (length-replicate n x)

module _ (hmac : List ℕ → List ℕ → List ℕ) (rand : Random) where
  -- What the client sends before it reads, and when it has read.
  client-first :
      (c1 : List ℕ)
      → make_c1 hmac rand (replicate 1536 0) schema1 ≡ ok c1
      → (handshake_client hmac takes_all rand []).sent ≡ 3 ∷ c1
  unfolding handshake_client write_then skip_full
  client-first c1 e = rw (e, read_full_end 3072) (append-nil (3 ∷ c1))

  client-Completes :
      (c1 answer rest : List ℕ) (r : Reader)
      → make_c1 hmac rand (replicate 1536 0) schema1 ≡ ok c1
      → length answer ≡ 3073
      → bytes r ≡ answer ++ rest
      → Completes (handshake_client hmac takes_all rand r) ((3 ∷ c1) ++ replicate 1536 0) rest
  unfolding handshake_client write_then skip_full
  client-Completes c1 answer rest r e size stream =
      let (r', p, q) = read_full_sized 3073 answer rest r size stream in
      record {
        sent_all = rw (e, p) (ap (λ l. (3 ∷ c1) ++ l) (append-nil (replicate 1536 0)));
        reader = r';
        leaves = rw (e, p) refl;
        unread = q;
      }

Gives-cases : {A : Type 0} {P : A → Type 0} (x : Result A) → Gives P x → (a : A) × (x ≡ ok a) × P a
Gives-cases (ok a) v = (a, refl, Gives-ok a v)
Gives-cases (err e) v = elim v [ ]
Gives-cases panic v = elim v [ ]
Gives-cases stuck v = elim v [ ]

-- Whatever random bytes both sides draw, on connections that take all that is written: the server
-- receives what HandshakeClient sends before it is
-- answered, then 1536 zeros, and more; the client receives what the server sends, and more. Then the
-- server and the client both end without an error and leave what is more, and what the client has sent
-- in all is what it sent before, and the 1536 zeros.
pub handshakes_meet :
    (hmac : List ℕ → List ℕ → List ℕ) (rand_c rand_s : Random) (first : Option ℕ) (r_s r_c : Reader)
    (rest_s rest_c : List ℕ)
    → arrived first (bytes r_s)
      ≡ (handshake_client hmac takes_all rand_c []).sent ++ (replicate 1536 0 ++ rest_s)
    → bytes r_c ≡ (handshake_server hmac takes_all rand_s first r_s).sent ++ rest_c
    → Completes
        (handshake_server hmac takes_all rand_s first r_s)
        (handshake_server hmac takes_all rand_s first r_s).sent
        rest_s
      × Completes
          (handshake_client hmac takes_all rand_c r_c)
          ((handshake_client hmac takes_all rand_c []).sent ++ replicate 1536 0)
          rest_c
unfolding u32_be shift_in
handshakes_meet hmac rand_c rand_s first r_s r_c rest_s rest_c to_server to_client =
    let c2 : List ℕ = replicate 1536 0 in
    let size_c2 : length c2 ≡ 1536 = length-replicate 1536 0 in
    let (c1, made, (tail, tail_size, shape)) =
      Gives-cases (make_c1 hmac rand_c (replicate 1536 0) schema1)
        (make_c1-Gives hmac rand_c (replicate 1528 0) (length-replicate 1528 0)) in
    let flight = client-first hmac rand_c c1 made in
    let stream : arrived first (bytes r_s) ≡ 3 ∷ (zeros_8 ++ (tail ++ (c2 ++ rest_s))) =
      to_server ∙ ap (λ l. l ++ (c2 ++ rest_s)) (flight ∙ ap (λ l. 3 ∷ l) shape) in
    let served =
      simple_handshake_echoes hmac rand_s first r_s zeros_8 tail c2 rest_s refl tail_size size_c2
        refl stream in
    let s1 = random_bytes 1532 rand_s in
    let answer : List ℕ = (3 ∷ (0 ∷ 0 ∷ 0 ∷ 0 ∷ s1)) ++ (zeros_8 ++ tail) in
    let answered : length answer ≡ 3073 = omega (
      arith,
      length-append (3 ∷ (0 ∷ 0 ∷ 0 ∷ 0 ∷ s1)) (zeros_8 ++ tail),
      length-random_bytes 1532 rand_s,
    ) in
    (
      record {
        sent_all = refl;
        reader = served.reader;
        leaves = served.leaves;
        unread = served.unread;
      },
      rw flight (
          client-Completes hmac rand_c c1 answer rest_c r_c made answered
            (to_client ∙ ap (λ l. l ++ rest_c) served.sent_all)),
    )
