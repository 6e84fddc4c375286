-- ===== src/Rtmp/Client/Answering.antt =====
-- Which answer a command message is to the client (protocol/rtmp/clientHandler.go), by its status.
use golive.Common.{arith, ℕ, ◌≡◌, ap, Option, List}
use golive.Common.Go.{Error}
use golive.Rtmp.Message.{Message}
use golive.Rtmp.Status.{connect_send, crtstm_send, publish_send, publish_success}
use golive.Rtmp.Client.{publish, RtmpClientHandler}
use golive.Rtmp.Client.Response.{
  Outside, handle_connect_response, handle_create_stream_response, handle_publish_response,
}
use golive.Rtmp.Client.Handle.{
  set_status, on_connected, created, answered, run_answer, handle_command, handle_receive_message,
  is_play,
}

module _ (out : Outside) (on_write : List ℕ → Option Error) where
  -- A command message is an answer.
  pub is_answer :
      (h : RtmpClientHandler) (m : Message)
      → m.message_type ≡ 20
      → handle_receive_message out on_write h m ≡ run_answer out on_write h m
  unfolding handle_receive_message handle_command
  is_answer h m e = ground (arith, e)

  pub on_connect_send :
      (h : RtmpClientHandler) (m : Message)
      → h.status ≡ connect_send
      → run_answer out on_write h m
        ≡ answered out on_write h
            (handle_connect_response out m.payload)
            (λ _. on_connected out on_write h)
  unfolding run_answer
  on_connect_send h m e = ground (arith, e)

  pub on_crtstm_send :
      (h : RtmpClientHandler) (m : Message)
      → h.status ≡ crtstm_send
      → run_answer out on_write h m
        ≡ created out on_write h (handle_create_stream_response out m.payload 0)
  unfolding run_answer
  on_crtstm_send h m e = ground (arith, e)

  pub on_publish_send :
      (h : RtmpClientHandler) (m : Message)
      → h.status ≡ publish_send
      → h.role ≡ publish
      → run_answer out on_write h m
        ≡ answered out on_write h
            (handle_publish_response out m.payload)
            (λ _. set_status publish_success h)
  unfolding run_answer
  on_publish_send h m e r = ground (arith, e, ap is_play r)
