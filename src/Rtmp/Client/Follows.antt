-- ===== src/Rtmp/Client/Follows.antt =====
-- The handler of the client (protocol/rtmp/clientHandler.go) follows the diagram of its states.
use golive.Common.{arith, ℕ, ◌+◌, ◌*◌, ◌≡◌, refl, sym, ap, true, Option, List, [], ◌∷◌, ◌++◌, drop}
use golive.Common.{◌==◌, ◌||◌, ◌⊎◌, inl, inr}
use golive.Common.Go.{Error}
use golive.Rtmp.Outcome.{Leaves, leaves, panics, Leaves-bind, Leaves-if}
use golive.Rtmp.Message.{Message}
use golive.ByteIo.Get.{u8}
use golive.Rtmp.Control.{handle_protocol_control_message}
use mathlib.Core.Path.{transport}
use golive.Rtmp.Status.{play_send, stream_is_record}
use golive.Rtmp.Client.{RtmpClientHandler}
use golive.Rtmp.Client.Response.{Outside}
use golive.Rtmp.Client.Handle.{give_player, handle_event, handle_user_control}
use golive.Rtmp.Client.Handle.{handle_command, handle_receive_message, set_status}
use golive.Rtmp.Client.Diagram.{Edge, recorded, begun, begun_recorded}
use golive.Rtmp.Client.Diagram.{here, next, At, arrive}
use golive.Rtmp.Client.Keeps.{Leaves-when, Leaves-At}
use golive.Rtmp.Client.Answers.{run_answer-At}

give_player-At :
    (h : RtmpClientHandler) (m : Message) → Leaves (At h.role h.status) (give_player h m)
unfolding give_player
give_player-At h m =
    Leaves-if h.player (Leaves-At (record h { played = h.played ++ (m ∷ []) }) refl) panics

-- A step of the diagram from a status that a test found.
moved :
    (h : RtmpClientHandler) {k t : ℕ}
    → Edge h.role k t
    → h.status ≡ k
    → Leaves (At h.role h.status) (set_status t h)
moved h {k} {t} edge e = transport (ap (λ (s : ℕ). Leaves (At h.role s) (set_status t h)) (sym e)) (
    leaves (
      arrive (record h { status = t }) (next here edge)
        (record { role_eq = refl; status_eq = refl })))

handle_event-At :
    (h : RtmpClientHandler) (event : ℕ) → Leaves (At h.role h.status) (handle_event h event)
unfolding handle_event
handle_event-At h event =
    Leaves-if (event == 0)
      (Leaves-when (h.status == stream_is_record || h.status == play_send)
        (λ e. elim (either e) [ inl s ↦ moved h begun_recorded s | inr s ↦ moved h begun s ])
        (λ e. Leaves-At h refl))
      (Leaves-if (event == 4)
        (Leaves-when (h.status == play_send) (λ e. moved h recorded (ground (arith, e)))
          (λ e. Leaves-At h refl))
        (Leaves-At h refl))
  where
    either :
        (h.status == stream_is_record || h.status == play_send) ≡ true
        → (h.status ≡ stream_is_record) ⊎ (h.status ≡ play_send)
    either e = ground (arith, e)

handle_user_control-At :
    (h : RtmpClientHandler) (m : Message) → Leaves (At h.role h.status) (handle_user_control h m)
unfolding handle_user_control
handle_user_control-At h m =
    Leaves-bind (u8 m.payload) _
      (λ b0. Leaves-bind (u8 (drop 1 m.payload)) _ (λ b1. handle_event-At h (b0 * 256 + b1)))

module _ (out : Outside) (on_write : List ℕ → Option Error) where
  handle_command-At :
      (h : RtmpClientHandler) (m : Message)
      → Leaves (At h.role h.status) (handle_command out on_write h m)
  unfolding handle_command
  handle_command-At h m =
      Leaves-if (m.message_type == 17 || m.message_type == 20) (run_answer-At out on_write h m)
        (Leaves-At h refl)

  -- Whatever message the client receives, and whatever the connection answers to its writes, the
  -- handler that is left, with an error or without one, has the same role and a status that the
  -- diagram of that role leads to from the status before.
  pub handle_receive_message-Follows :
      (h : RtmpClientHandler) (m : Message)
      → Leaves (At h.role h.status) (handle_receive_message out on_write h m)
  unfolding handle_receive_message
  handle_receive_message-Follows h m =
      let t = m.message_type in
      Leaves-if (t == 1 || t == 2 || t == 3 || t == 5 || t == 6)
        (Leaves-bind (handle_protocol_control_message h.chunk_unpacker m) _
          (λ u. Leaves-At (record h { chunk_unpacker = u }) refl))
        (Leaves-if (t == 4) (handle_user_control-At h m) (
          Leaves-if (t == 17 || t == 20) (handle_command-At h m) (
            Leaves-if (t == 8 || t == 9 || t == 15 || t == 18) (give_player-At h m)
              (Leaves-At h refl))))
