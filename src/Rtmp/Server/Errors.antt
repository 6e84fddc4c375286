-- ===== src/Rtmp/Server/Errors.antt =====
-- What the commands of the server's handler (protocol/rtmp/serverHandler.go) leave after an error.
use golive.Common.{true, ◌≡◌, refl, none, some, [], ◌∷◌, ◌++◌, append_assoc}
use golive.Common.Go.{Error, ok, panic}
use golive.Common.Go.Strings.{ascii, same}
use golive.Amf.Read.{Rest}
use golive.Rtmp.Message.{Message}
use golive.Rtmp.Status.{connect_fail, publish_fail}
use golive.Rtmp.Server.{RtmpHandler, World, done, fail, source}
use golive.Rtmp.Server.{source_determined, destroy_source}
use golive.Rtmp.Server.Command.{handle_connect_command, handle_create_stream_command, with_status}
use golive.Rtmp.Server.Command.{handle_publish_command, become_source, run_command}
use golive.Rtmp.Server.Serve.{stop_handler, last_call}

module _ (world : World) (h : RtmpHandler) (m : Message) (r : Rest) where
  -- A connect command that ends with an error is no error of the message, but leaves a status in which
  -- every further connect or createStream command panics, whatever it says.
  pub after_failed_connect :
      (m' : Message) (r' : Rest) (h1 : RtmpHandler) (e : Error)
      → handle_connect_command world h r ≡ ok (h1, some e)
      → (h2 : RtmpHandler) × (run_command world h m (ascii "connect") r ≡ done h2)
        × (h2.status ≡ connect_fail)
        × (run_command world h2 m' (ascii "connect") r' ≡ panic)
        × (run_command world h2 m' (ascii "createStream") r' ≡ panic)
  unfolding run_command with_status same ascii handle_connect_command handle_create_stream_command
  after_failed_connect m' r' h1 e q =
      (record h1 { status = connect_fail }, rw q refl, refl, refl, refl)

  -- A publisher that the pad refuses: the command returns the pad's error, but the handler has the role
  -- of a source, so that `stop` asks the pad to destroy the source of that stream key.
  pub refused_publisher :
      (h1 : RtmpHandler) (e : Error)
      → handle_publish_command world h r ≡ ok (h1, none)
      → world.on_source_determined h1.calls h1.app_stream_key ≡ some e
      → (h2 : RtmpHandler) × (run_command world h m (ascii "publish") r ≡ fail h2 e)
        × (h2.status ≡ publish_fail)
        × ((stop_handler h2).calls
            ≡ h1.calls
              ++ (source_determined h1.app_stream_key ∷ destroy_source h1.app_stream_key ∷ []))
  unfolding run_command with_status become_source stop_handler last_call same ascii
  refused_publisher h1 e q n =
      let key = h1.app_stream_key in
      let h2 = record h1 {
        role = source;
        put_msg = true;
        status = publish_fail;
        calls = h1.calls ++ (source_determined key ∷ []);
      } in
      (
        h2,
        rw (q, n) refl,
        refl,
        append_assoc h1.calls (source_determined key ∷ []) (destroy_source key ∷ []),
      )
