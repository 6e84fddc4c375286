-- ===== src/Rtmp/Client/Start.antt =====
-- `Start` of the client (protocol/rtmp/clientHandler.go): where it can end.
use golive.Common.{
  arith, ℕ, zero, suc, ◌≡◌, ◌≢◌, refl, sym, ap, ◌∙◌, Bool, true, false, Option, List,
}
use golive.Common.{◌==◌, if◌then◌else◌, ◌⊎◌, inl, inr}
use golive.Common.Go.{Result, Error, ok, err, panic, stuck}
use golive.Common.Go.Reader.{Reader}
use golive.Rtmp.Outcome.{
  done, fail, ◌>>>◌, Leaves, leaves, panics, ends, Leaves-after, Leaves-map, Leaves-then, Leaves-ok,
  done_after,
}
use golive.Rtmp.Message.{Message}
use golive.Rtmp.Unpacker.{ChunkUnpacker, get_rtmp_message}
use golive.Rtmp.Status.{connect_send, publish_success}
use golive.Rtmp.Client.{ClientRole, publish, RtmpClientHandler, Outcome}
use golive.Rtmp.Client.Response.{Outside}
use golive.Rtmp.Client.Request.{send_connect_message}
use golive.Rtmp.Client.Handle.{handle_receive_message, connect_rounds, start_client}
use golive.Rtmp.Client.Diagram.{
  Edge, connected, creating, stream_made, asking, offering, recorded, begun, begun_recorded, reset,
  playing, publishing,
}
use golive.Rtmp.Client.Diagram.{Way, here, next, At, Stays, send-Stays}
use golive.Rtmp.Client.Keeps.{At-after, Leaves-At}
use golive.Rtmp.Client.Follows.{handle_receive_message-Follows}
use mathlib.Core.Path.{transport}

At-role :
    {r q : ClientRole} {s t : ℕ} → r ≡ q → Way q s t → (h : RtmpClientHandler) → At r t h → At q s h
At-role {r} {q} {s} {t} e w h v = At-after w h (transport (ap (λ (x : ClientRole). At x t h) e) v)

connect_rounds-At :
    (out : Outside) (on_write : List ℕ → Option Error) (fuel : ℕ) (h : RtmpClientHandler)
    (r : Reader)
    → Leaves (At h.role h.status) (connect_rounds out on_write fuel h r)
unfolding connect_rounds
connect_rounds-At out on_write zero h r = ends
connect_rounds-At out on_write (suc fuel) h r =
    go (get_rtmp_message h.chunk_unpacker r) (λ h2 r'. connect_rounds-At out on_write fuel h2 r')
  where
    on :
        (h1 : RtmpClientHandler)
        → (h2 : RtmpClientHandler) → At h1.role h1.status h2
        → (x : Outcome) → Leaves (At h2.role h2.status) x
        → (b : Bool) → Leaves (At h1.role h1.status) (if b then done h2 else x)
    on h1 h2 v x w true = leaves v
    on h1 h2 v x w false = Leaves-map x (λ h3 u. At-role v.role_eq v.way h3 u) w

    go :
        (x : Result (Message × Reader) × ChunkUnpacker)
        → ((h2 : RtmpClientHandler) (r' : Reader)
            → Leaves (At h2.role h2.status) (connect_rounds out on_write fuel h2 r'))
        → Leaves (At h.role h.status) (
            let (result, u) = x in
            let h1 = record h { chunk_unpacker = u } in
            elim result [
              | ok (m, r') ↦ handle_receive_message out on_write h1 m >>> λ h2.
                  (let more = connect_rounds out on_write fuel h2 r' in
                    if h2.status == publish_success then done h2 else more)
              | err e ↦ fail h1 e
              | panic ↦ panic
              | stuck ↦ stuck
            ])
    go (ok (m, r'), u) more =
        let h1 = record h { chunk_unpacker = u } in
        Leaves-then (handle_receive_message out on_write h1 m) _
          (handle_receive_message-Follows out on_write h1 m)
          (λ h2 v. on h1 h2 v _ (more h2 r') (h2.status == publish_success))
    go (err e, u) more = Leaves-At (record h { chunk_unpacker = u }) refl
    go (panic, u) more = panics
    go (stuck, u) more = ends

abbrev status_of : Outcome → ℕ
status_of (ok (h, e)) = h.status
status_of _ = 0

left_by_test :
    (h2 h' : RtmpClientHandler) (x : Outcome)
    → (x ≡ done h' → h'.status ≡ publish_success)
    → (b : Bool) → (h2.status == publish_success) ≡ b
    → (if b then done h2 else x) ≡ done h'
    → h'.status ≡ publish_success
left_by_test h2 h' x w true t e = sym (ap status_of e) ∙ ground (arith, t)
left_by_test h2 h' x w false t e = w e

-- The loop ends without an error only where the client may publish.
connect_rounds-Done :
    (out : Outside) (on_write : List ℕ → Option Error) (fuel : ℕ) (h h' : RtmpClientHandler)
    (r : Reader)
    → connect_rounds out on_write fuel h r ≡ done h'
    → h'.status ≡ publish_success
unfolding connect_rounds
connect_rounds-Done out on_write zero h h' r e = absurd (cc)
connect_rounds-Done out on_write (suc fuel) h h' r e =
    go (get_rtmp_message h.chunk_unpacker r)
      (λ h2 r' e'. connect_rounds-Done out on_write fuel h2 h' r' e') e
  where
    go :
        (x : Result (Message × Reader) × ChunkUnpacker)
        → ((h2 : RtmpClientHandler) (r' : Reader)
            → connect_rounds out on_write fuel h2 r' ≡ done h'
            → h'.status ≡ publish_success)
        → (let (result, u) = x in
            let h1 = record h { chunk_unpacker = u } in
            elim result [
              | ok (m, r') ↦ handle_receive_message out on_write h1 m >>> λ h2.
                  (let more = connect_rounds out on_write fuel h2 r' in
                    if h2.status == publish_success then done h2 else more)
              | err e ↦ fail h1 e
              | panic ↦ panic
              | stuck ↦ stuck
            ])
          ≡ done h'
        → h'.status ≡ publish_success
    go (ok (m, r'), u) more e =
        done_after (handle_receive_message out on_write (record h { chunk_unpacker = u }) m) _
          (handle_receive_message-Follows out on_write (record h { chunk_unpacker = u }) m)
          (λ h2 v e'. left_by_test h2 h' _ (more h2 r') (h2.status == publish_success) refl e') e
    go (err e', u) more e = absurd (cc)
    go (panic, u) more e = absurd (cc)
    go (stuck, u) more e = absurd (cc)

-- An edge that ends where the client may publish is the publisher's last.
Edge-publish : {r : ClientRole} {s t : ℕ} → Edge r s t → t ≡ publish_success → r ≡ publish
Edge-publish publishing e = refl
Edge-publish connected e = absurd (omega arith)
Edge-publish creating e = absurd (omega arith)
Edge-publish stream_made e = absurd (omega arith)
Edge-publish asking e = absurd (omega arith)
Edge-publish offering e = refl
Edge-publish recorded e = absurd (omega arith)
Edge-publish begun e = absurd (omega arith)
Edge-publish begun_recorded e = absurd (omega arith)
Edge-publish reset e = absurd (omega arith)
Edge-publish playing e = absurd (omega arith)

Way-publish :
    {r : ClientRole} {s t : ℕ} → Way r s t → s ≢ publish_success → t ≡ publish_success → r ≡ publish
Way-publish here n e = absurd (n e)
Way-publish (next w edge) n e = Edge-publish edge e

module _ (out : Outside) (on_write : List ℕ → Option Error) where
  -- After Start has asked to connect, whatever the server sends: the handler that is left keeps its
  -- role, and its status is the one it had, if the connect message could not be written, or else one
  -- that the diagram of the role leads to from there.
  pub start_client-Follows :
      (fuel : ℕ) (h : RtmpClientHandler) (r : Reader)
      → Leaves
          (λ h'. (h'.role ≡ h.role) × ((h'.status ≡ h.status) ⊎ Way h.role connect_send h'.status))
          (start_client out on_write fuel h r)
  unfolding start_client send_connect_message
  start_client-Follows fuel h r =
      Leaves-after {P = Stays h.role h.status} (send_connect_message on_write h) _
        (send-Stays on_write _ h (record { role_eq = refl; status_eq = refl }))
        (λ h1 v. (v.role_eq, inl v.status_eq))
        (λ h1 v.
          Leaves-map _ (λ h2 u. (u.role_eq ∙ v.role_eq, inr (as_role v.role_eq u.way)))
            (connect_rounds-At out on_write fuel (record h1 { status = connect_send }) r))
    where
      as_role : {q r : ClientRole} {s t : ℕ} → q ≡ r → Way q s t → Way r s t
      as_role {q} {r} {s} {t} e w = transport (ap (λ (x : ClientRole). Way x s t) e) w

  -- Start returns from its first loop without an error only as a publisher that may publish: a
  -- player's ends with an error of the connection or of an answer, a panic, or not at all.
  pub start_client-Done :
      (fuel : ℕ) (h h' : RtmpClientHandler) (r : Reader)
      → start_client out on_write fuel h r ≡ done h'
      → (h.role ≡ publish) × (h'.status ≡ publish_success)
  unfolding start_client send_connect_message
  start_client-Done fuel h h' r e =
      done_after {P = Stays h.role h.status} (send_connect_message on_write h) _
        (send-Stays on_write _ h (record { role_eq = refl; status_eq = refl }))
        (λ h1 v e'.
          let h2 = record h1 { status = connect_send } in
          let ended = connect_rounds-Done out on_write fuel h2 h' r e' in
          let at = Leaves-ok _ (connect_rounds-At out on_write fuel h2 r) e' in
          (sym v.role_eq ∙ Way-publish at.way (omega arith) ended, ended))
        e
