-- ===== src/Rtmp/Client/Publishes.antt =====
-- A publisher (protocol/rtmp/clientHandler.go) that receives the answers of the server
-- (protocol/rtmp/message.go) may publish.
use golive.Common.{arith, ℕ, ◌<◌, ◌^◌, ◌≡◌, refl, sym, ap, Option, none, some, List, ◌++◌}
use mathlib.Core.Path.{transport}
use golive.Common.Go.{Result, Error, ok, err, panic, stuck, ◌>>=◌}
use golive.Common.Go.Float.{pos}
use golive.Rtmp.Outcome.{done, fail, ◌>>>◌, Runs, runs, Runs-then}
use golive.Rtmp.Message.{Message}
use golive.Rtmp.Packer.{ChunkPacker, write_message, set_chunk_size}
use golive.Rtmp.Written.{Gives, gives, Gives-bind, Resized, write_message-Gives}
use golive.Rtmp.Commands.{
  new_connect_success_message, new_create_stream_success_message, new_publish_success_message,
}
use golive.Rtmp.Status.{
  connect_send, connect_success, crtstm_send, crtstrm_success, publish_send, publish_success,
}
use golive.Rtmp.Client.{ClientRole, publish, RtmpClientHandler, Outcome, send}
use golive.Rtmp.Client.Response.{Outside}
use golive.Rtmp.Client.Handle.{
  next_transaction, set_status, prepare, on_connected, on_created, created, answered,
  handle_receive_message,
}
use golive.Rtmp.Client.Accepts.{connect-Accepted, publish-Accepted, create_stream-Accepted}
use golive.Rtmp.Client.Answering.{is_answer, on_connect_send, on_crtstm_send, on_publish_send}
use golive.Rtmp.Client.Built.{
  Plain, release-Plain, fc_publish-Plain, create_stream-Plain, publish-Plain, chunk_size-Plain,
  connect_success-IsCommand, create_stream_success-IsCommand, publish_success-IsCommand,
  IsCommand-ok,
}

-- A publisher's handler with the status `k` and the stream `i`, whose packer can cut messages.
record Publisher (i k : ℕ) (h : RtmpClientHandler) : Type 0 where
  role_eq : h.role ≡ publish
  status_eq : h.status ≡ k
  stream_eq : h.functional_stream_id ≡ i
  size : 0 < h.chunk_packer.send_chunk_size

next-Publisher :
    {i k : ℕ} (h : RtmpClientHandler) → Publisher i k h → Runs (Publisher i k) (next_transaction h)
next-Publisher h v = runs (record {
  role_eq = v.role_eq;
  status_eq = v.status_eq;
  stream_eq = v.stream_eq;
  size = v.size;
})

set-Publisher :
    {i k t : ℕ} (h : RtmpClientHandler) → Publisher i k h → Runs (Publisher i t) (set_status t h)
set-Publisher h v =
    runs (record { role_eq = v.role_eq; status_eq = refl; stream_eq = v.stream_eq; size = v.size })

module _ (out : Outside) (on_write : List ℕ → Option Error)
    (writes : (w : List ℕ) → on_write w ≡ none) where
  send-Publisher :
      {i k : ℕ} (m : Result Message) (h : RtmpClientHandler)
      → Gives Plain m
      → Publisher i k h
      → Runs (Publisher i k) (send on_write m h)
  unfolding send
  send-Publisher {i} {k} m h plain v = go (m >>= write_message h.chunk_packer) (
      Gives-bind m (write_message h.chunk_packer) plain
        (λ m' p. write_message-Gives h.chunk_packer m' p v.size))
    where
      go :
          (x : Result (ChunkPacker × List ℕ))
          → Gives (Resized h.chunk_packer) x
          → Runs (Publisher i k) (elim x [
            | ok (p, w) ↦ elim (on_write w) [
              | none ↦ done (record h { chunk_packer = p; written = h.written ++ w })
              | some e ↦ fail (record h { chunk_packer = p }) e
            ]
            | err e ↦ fail h e
            | panic ↦ panic
            | stuck ↦ stuck
          ])
      go (ok (p, w)) (gives same) = rw (writes w) (
          runs (record {
            role_eq = v.role_eq;
            status_eq = v.status_eq;
            stream_eq = v.stream_eq;
            size = omega (arith, same, v.size);
          }))
      go (err e) u = elim u [ ]
      go panic u = elim u [ ]
      go stuck u = elim u [ ]

  sending :
      {i k : ℕ} (x : Outcome) (m : RtmpClientHandler → Result Message)
      → ((h : RtmpClientHandler) → Gives Plain (m h))
      → Runs (Publisher i k) x
      → Runs (Publisher i k) (x >>> (λ h. send on_write (m h) h) >>> next_transaction)
  sending x m plain v =
      Runs-then (x >>> (λ h. send on_write (m h) h)) next_transaction
        (Runs-then x _ v (λ h w. send-Publisher (m h) h (plain h) w)) next-Publisher

  connected-Publisher :
      (h : RtmpClientHandler)
      → h.role ≡ publish
      → Runs (Publisher h.functional_stream_id crtstm_send) (on_connected out on_write h)
  unfolding on_connected prepare set_chunk_size
  connected-Publisher h role =
      Runs-then _ (set_status crtstm_send)
        (sending _ _ (λ h2. create_stream-Plain _)
          (Runs-then _ (prepare out on_write h.role)
            (send-Publisher _ _ chunk_size-Plain
              (record { role_eq = role; status_eq = refl; stream_eq = refl; size = omega arith }))
            (λ h2 v. as_publisher h2 v)))
        set-Publisher
    where
      prepared :
          (h2 : RtmpClientHandler)
          → Publisher h.functional_stream_id connect_success h2
          → Runs
              (Publisher h.functional_stream_id connect_success)
              (prepare out on_write publish h2)
      prepared h2 v =
          sending _ _ (λ h3. fc_publish-Plain _ _)
            (Runs-then _ next_transaction (send-Publisher _ h2 (release-Plain _ _) v)
              next-Publisher)

      as_publisher :
          (h2 : RtmpClientHandler)
          → Publisher h.functional_stream_id connect_success h2
          → Runs (Publisher h.functional_stream_id connect_success) (prepare out on_write h.role h2)
      as_publisher h2 v =
          transport
            (ap
              (λ (r : ClientRole).
                Runs (Publisher h.functional_stream_id connect_success) (prepare out on_write r h2))
              (sym role))
            (prepared h2 v)

  created-Publisher :
      {i : ℕ} (h : RtmpClientHandler)
      → Publisher i crtstrm_success h
      → Runs (Publisher i publish_send) (on_created out on_write publish h)
  unfolding on_created
  created-Publisher h v =
      Runs-then _ (set_status publish_send)
        (Runs-then _ next_transaction (send-Publisher _ h (publish-Plain _ _ _) v) next-Publisher)
        set-Publisher

  -- The answers to connect, createStream and publish.
  first_answer :
      (h : RtmpClientHandler) (m : Message)
      → h.role ≡ publish
      → h.status ≡ connect_send
      → new_connect_success_message ≡ ok m
      → Runs
          (Publisher h.functional_stream_id crtstm_send)
          (handle_receive_message out on_write h m)
  unfolding answered on_connected
  first_answer h m role status built =
      let answer = rw built at (connect-Accepted out) in
      let kind = IsCommand-ok m (connect_success-IsCommand) built in
      rw (is_answer out on_write h m kind, on_connect_send out on_write h m status, answer)
        (connected-Publisher h role)

  second_answer :
      {i : ℕ} (h : RtmpClientHandler) (m : Message) (t : ℕ)
      → Publisher i crtstm_send h
      → t < 2 ^ 53
      → new_create_stream_success_message (pos t) ≡ ok m
      → Runs (Publisher 1 publish_send) (handle_receive_message out on_write h m)
  unfolding created
  second_answer h m t v small built =
      let answer = rw built at (create_stream-Accepted out t small) in
      let kind = IsCommand-ok m (create_stream_success-IsCommand t) built in
      rw (is_answer out on_write h m kind, on_crtstm_send out on_write h m v.status_eq, answer)
        (by_role (record h { functional_stream_id = 1; status = crtstrm_success })
          (record { role_eq = v.role_eq; status_eq = refl; stream_eq = refl; size = v.size }))
    where
      by_role :
          (h2 : RtmpClientHandler)
          → Publisher 1 crtstrm_success h2
          → Runs (Publisher 1 publish_send) (on_created out on_write h2.role h2)
      by_role h2 w =
          transport
            (ap (λ (r : ClientRole). Runs (Publisher 1 publish_send) (on_created out on_write r h2))
              (sym w.role_eq))
            (created-Publisher h2 w)

  third_answer :
      {i : ℕ} (h : RtmpClientHandler) (m : Message)
      → Publisher i publish_send h
      → new_publish_success_message ≡ ok m
      → Runs (Publisher i publish_success) (handle_receive_message out on_write h m)
  unfolding answered
  third_answer h m v built =
      let answer = rw built at (publish-Accepted out) in
      let kind = IsCommand-ok m publish_success-IsCommand built in
      rw
        (
          is_answer out on_write h m kind,
          on_publish_send out on_write h m v.status_eq v.role_eq,
          answer,
        )
        (set-Publisher h v)

  -- A publisher that has asked to connect receives the three answers as the server builds them: to
  -- connect, to createStream with any transaction id of 32 bits, and to publish. If the connection
  -- takes every write, no method returns an error, and the client may publish, on the stream 1.
  pub answers-Publish :
      (h : RtmpClientHandler) (t : ℕ) (m1 m2 m3 : Message)
      → h.role ≡ publish
      → h.status ≡ connect_send
      → t < 2 ^ 32
      → new_connect_success_message ≡ ok m1
      → new_create_stream_success_message (pos t) ≡ ok m2
      → new_publish_success_message ≡ ok m3
      → (h' : RtmpClientHandler) × ((handle_receive_message out on_write h m1
            >>> (λ h1. handle_receive_message out on_write h1 m2)
            >>> (λ h2. handle_receive_message out on_write h2 m3))
          ≡ done h')
        × (h'.status ≡ publish_success)
        × (h'.functional_stream_id ≡ 1)
  answers-Publish h t m1 m2 m3 role status small b1 b2 b3 = ending _ (
      Runs-then _ _
        (Runs-then _ _ (first_answer h m1 role status b1)
          (λ h1 v. second_answer h1 m2 t v (omega arith) b2))
        (λ h2 v. third_answer h2 m3 v b3))
    where
      ending :
          (x : Outcome)
          → Runs (Publisher 1 publish_success) x
          → (h' : RtmpClientHandler) × (x ≡ done h')
            × (h'.status ≡ publish_success)
            × (h'.functional_stream_id ≡ 1)
      ending (ok (h', none)) (runs v) = (h', refl, v.status_eq, v.stream_eq)
      ending (ok (h', some e)) u = elim u [ ]
      ending (err e) u = elim u [ ]
      ending panic u = elim u [ ]
      ending stuck u = elim u [ ]
