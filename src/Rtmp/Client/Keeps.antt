-- ===== src/Rtmp/Client/Keeps.antt =====
-- What the client's handler (protocol/rtmp/clientHandler.go) sends keeps its status until it is set.
use golive.Common.{arith, ℕ, ◌≡◌, refl, sym, ap, Bool, true, false, Option, List}
use golive.Common.{◌==◌, if◌then◌else◌}
use golive.Common.Go.{Result, Error, ok}
use golive.Rtmp.Outcome.{◌>>>◌, Leaves, leaves, Leaves-then, Leaves-after}
use golive.Rtmp.Message.{Message}
use mathlib.Core.Path.{transport}
use golive.Rtmp.Status.{connect_success, crtstrm_success}
use golive.Rtmp.Client.{ClientRole, play, publish, RtmpClientHandler, Outcome, send}
use golive.Rtmp.Client.Response.{Outside}
use golive.Rtmp.Client.Handle.{next_transaction}
use golive.Rtmp.Client.Handle.{prepare, on_connected, on_created, set_status}
use golive.Rtmp.Client.Diagram.{Edge, creating, asking, offering}
use golive.Rtmp.Client.Diagram.{Way, here, next, At, Stays, arrive, send-Stays}

-- From here on the handler that goes on has the status `s`.
pub still : {r : ClientRole} {s : ℕ} (h : RtmpClientHandler) → Stays r s h → At r s h
still h v = arrive h here v

next_transaction-Stays :
    {r : ClientRole} {s : ℕ} (h : RtmpClientHandler)
    → Stays r s h
    → Leaves (Stays r s) (next_transaction h)
next_transaction-Stays h v = leaves (record { role_eq = v.role_eq; status_eq = v.status_eq })

-- After a run that keeps the status, it is set along an edge.
pub setting-At :
    {r : ClientRole} {s t : ℕ} (x : Outcome)
    → Edge r s t
    → Leaves (Stays r s) x
    → Leaves (At r s) (x >>> set_status t)
setting-At {r} {s} {t} x e v =
    Leaves-after x (set_status t) v still
      (λ h w. leaves (arrive _ (next here e) (record { role_eq = w.role_eq; status_eq = refl })))

-- The diagram from `s` on, by way of `t`.
pub continued : {r : ClientRole} {s t u : ℕ} → Way r s t → Way r t u → Way r s u
continued w here = w
continued w (next v e) = next (continued w v) e

pub At-after :
    {r : ClientRole} {s t : ℕ} → Way r s t → (h : RtmpClientHandler) → At r t h → At r s h
At-after w h v = record { role_eq = v.role_eq; way = continued w v.way }

-- Where a test decides, its truth may be used.
pub Leaves-when :
    {P : RtmpClientHandler → Type 0} (b : Bool) {x y : Outcome}
    → (b ≡ true → Leaves P x)
    → (b ≡ false → Leaves P y)
    → Leaves P (if b then x else y)
Leaves-when true p q = p refl
Leaves-when false p q = q refl

-- A test of the status.
pub Leaves-status :
    (h : RtmpClientHandler) (k : ℕ) {x y : Outcome}
    → (h.status ≡ k → Leaves (At h.role k) x)
    → Leaves (At h.role h.status) y
    → Leaves (At h.role h.status) (if h.status == k then x else y)
Leaves-status h k {x} p q =
    Leaves-when (h.status == k)
      (λ e.
        let same : h.status ≡ k = ground (arith, e) in
        transport (ap (λ (s : ℕ). Leaves (At h.role s) x) (sym same)) (p same))
      (λ e. q)

-- A test that stands for a test of the role.
pub Leaves-At :
    {s : ℕ} (h : RtmpClientHandler) {e : Option Error}
    → h.status ≡ s
    → Leaves (At h.role s) (ok (h, e))
Leaves-At h e = leaves (still h (record { role_eq = refl; status_eq = e }))

module _ (out : Outside) (on_write : List ℕ → Option Error) where
  -- A message is sent after a run that keeps the status.
  sending-Stays :
      {r : ClientRole} {s : ℕ} (x : Outcome) (m : RtmpClientHandler → Result Message)
      → Leaves (Stays r s) x
      → Leaves (Stays r s) (x >>> (λ h. send on_write (m h) h) >>> next_transaction)
  sending-Stays x m v =
      Leaves-then (x >>> (λ h. send on_write (m h) h)) next_transaction
        (Leaves-then x (λ h. send on_write (m h) h) v (λ h w. send-Stays on_write (m h) h w))
        next_transaction-Stays

  prepare-Stays :
      {r : ClientRole} {s : ℕ} (role : ClientRole) (h : RtmpClientHandler)
      → Stays r s h
      → Leaves (Stays r s) (prepare out on_write role h)
  unfolding prepare
  prepare-Stays play h v = send-Stays on_write _ h v
  prepare-Stays publish h v =
      sending-Stays _ _
        (Leaves-then _ next_transaction (send-Stays on_write _ h v) next_transaction-Stays)

  pub on_connected-At :
      (h : RtmpClientHandler) → Leaves (At h.role connect_success) (on_connected out on_write h)
  unfolding on_connected
  on_connected-At h = setting-At _ creating (
      sending-Stays _ _ (
        Leaves-then _ (prepare out on_write h.role)
          (send-Stays on_write _ _ (record { role_eq = refl; status_eq = refl }))
          (λ h2 v. prepare-Stays h.role h2 v)))

  pub on_created-At :
      (role : ClientRole) (h : RtmpClientHandler)
      → Stays role crtstrm_success h
      → Leaves (At role crtstrm_success) (on_created out on_write role h)
  unfolding on_created
  on_created-At play h v = setting-At _ asking (
      sending-Stays _ _ (
        sending-Stays _ _
          (Leaves-then _ next_transaction (send-Stays on_write _ h v) next_transaction-Stays)))
  on_created-At publish h v =
      setting-At _ offering
        (Leaves-then _ next_transaction (send-Stays on_write _ h v) next_transaction-Stays)
