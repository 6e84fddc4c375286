-- ===== src/Rtmp/Client/Diagram.antt =====
-- The states of the client of a connection (protocol/rtmp/clientHandler.go) as a diagram, which its
-- handler follows.
use golive.Common.{ℕ, ◌≡◌, sym, ap, Option, none, some, List, ◌++◌}
use golive.Common.Go.{Result, Error, ok, err, panic, stuck, ◌>>=◌}
use golive.Rtmp.Outcome.{done, fail, Leaves, leaves, panics, ends}
use golive.Rtmp.Message.{Message}
use mathlib.Core.Path.{transport}
use golive.Rtmp.Packer.{write_message, ChunkPacker}
use golive.Rtmp.Status.{connect_send, connect_success, crtstm_send, crtstrm_success}
use golive.Rtmp.Status.{publish_send, publish_success, play_send, stream_is_record, stream_begin}
use golive.Rtmp.Status.{play_reset, play_start}
use golive.Rtmp.Client.{ClientRole, play, publish, RtmpClientHandler, send}

-- The edges of the diagram for a role. Each is one assignment to the status.
pub data Edge : ClientRole → ℕ → ℕ → Type 0 where
  connected : {r : ClientRole} → Edge r connect_send connect_success
  creating : {r : ClientRole} → Edge r connect_success crtstm_send
  stream_made : {r : ClientRole} → Edge r crtstm_send crtstrm_success
  asking : Edge play crtstrm_success play_send
  offering : Edge publish crtstrm_success publish_send
  recorded : {r : ClientRole} → Edge r play_send stream_is_record
  begun : {r : ClientRole} → Edge r play_send stream_begin
  begun_recorded : {r : ClientRole} → Edge r stream_is_record stream_begin
  reset : Edge play stream_begin play_reset
  playing : Edge play play_reset play_start
  publishing : Edge publish publish_send publish_success

pub data Way (r : ClientRole) (s : ℕ) : ℕ → Type 0 where
  here : Way r s s
  next : {t u : ℕ} → Way r s t → Edge r t u → Way r s u

-- The handler has the role `r`, and a status that is reached from `s`.
pub record At (r : ClientRole) (s : ℕ) (h : RtmpClientHandler) : Type 0 where
  pub role_eq : h.role ≡ r
  pub way : Way r s h.status

-- The handler has the role `r` and the status `s`.
pub record Stays (r : ClientRole) (s : ℕ) (h : RtmpClientHandler) : Type 0 where
  pub role_eq : h.role ≡ r
  pub status_eq : h.status ≡ s

pub arrive : {r : ClientRole} {s t : ℕ} (h : RtmpClientHandler) → Way r s t → Stays r t h → At r s h
arrive {r} {s} h w v = record {
  role_eq = v.role_eq;
  way = transport (ap (Way r s) (sym v.status_eq)) w;
}

-- Sending keeps the status.
pub send-Stays :
    {r : ClientRole} {s : ℕ} (on_write : List ℕ → Option Error) (m : Result Message)
    (h : RtmpClientHandler)
    → Stays r s h
    → Leaves (Stays r s) (send on_write m h)
unfolding send
send-Stays {r} {s} on_write m h v = go (m >>= write_message h.chunk_packer)
  where
    wrote :
        (p : ChunkPacker) (w : List ℕ) (x : Option Error)
        → Leaves (Stays r s) (elim x [
          | none ↦ done (record h { chunk_packer = p; written = h.written ++ w })
          | some e ↦ fail (record h { chunk_packer = p }) e
        ])
    wrote p w none = leaves (record { role_eq = v.role_eq; status_eq = v.status_eq })
    wrote p w (some e) = leaves (record { role_eq = v.role_eq; status_eq = v.status_eq })

    go :
        (x : Result (ChunkPacker × List ℕ))
        → Leaves (Stays r s) (elim x [
          | ok (p, w) ↦ elim (on_write w) [
            | none ↦ done (record h { chunk_packer = p; written = h.written ++ w })
            | some e ↦ fail (record h { chunk_packer = p }) e
          ]
          | err e ↦ fail h e
          | panic ↦ panic
          | stuck ↦ stuck
        ])
    go (ok (p, w)) = wrote p w (on_write w)
    go (err e) = leaves v
    go panic = panics
    go stuck = ends
