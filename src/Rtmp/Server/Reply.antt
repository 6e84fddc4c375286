-- ===== src/Rtmp/Server/Reply.antt =====
-- The answer of the server's handler (protocol/rtmp/serverHandler.go) to the client's createStream
-- (protocol/rtmp/message.go).
use golive.Common.{ℕ, ◌==◌, suc, ◌^◌, ◌<◌, ◌≡◌, refl, ap, ◌∙◌, arith, none, [], ◌++◌}
use golive.Common.{true}
use golive.Common.Go.{ok}
use golive.Common.Go.Float.{ℤ, pos, from_uint, to_int-from_uint, from_uint_bits}
use golive.Common.Go.Strings.{ascii, same}
use golive.Amf.{Value, number, null}
use golive.Amf.Read.{Rest, read_value}
use golive.Amf.Write.{
  write_value, write_string, write_double, write_null, write_siblings_as_objects,
  write_element_as_object,
}
use golive.Amf.Values.{read_value_end, reads_text, reads_number, reads_null}
use golive.Rtmp.Message.{Message}
use golive.Rtmp.Commands.{command, new_create_stream_message, new_create_stream_success_message}
use golive.Rtmp.Status.{connect_success, crtstrm_success, crtstrm_fail}
use golive.Rtmp.Server.{RtmpHandler, World, serializing, write_out}
use golive.Rtmp.Server.Media.{string_of, number_of}
use golive.Rtmp.Server.Command.{
  create_stream_loop, next_id, handle_create_stream_command, with_status,
}
use golive.Rtmp.Server.Command.{run_command, command_named, handle_command_message}

-- A round of the loop of `handleCreateStreamCommand`, and its end.
module _ (world : World) where
  loop_round :
      (fuel : ℕ) (id : ℤ) (r : Rest) (v : Value) (r' : Rest)
      → read_value world.amf3_read_value r ≡ ok (v, r')
      → create_stream_loop world (suc fuel) id r
        ≡ create_stream_loop world fuel (next_id world.beyond (number_of v) id) r'
  unfolding create_stream_loop
  loop_round fuel id r v r' e = rw (e, create_stream_loop) refl

  loop_end : (fuel : ℕ) (id : ℤ) → create_stream_loop world (suc fuel) id [] ≡ ok id
  unfolding create_stream_loop
  loop_end fuel id = rw (read_value_end world.amf3_read_value, create_stream_loop) refl

  loop_on_request :
      (t fuel : ℕ) (id : ℤ)
      → t < 2 ^ 53
      → create_stream_loop world
          (suc (suc (suc fuel)))
          id
          (write_double (from_uint t) ++ (write_null ++ []))
        ≡ ok (pos t)
  unfolding number_of
  loop_on_request t fuel id small =
      loop_round (suc (suc fuel)) id _ (number (from_uint t)) (write_null ++ []) (
        reads_number world.amf3_read_value (from_uint t) (write_null ++ [])
          (from_uint_bits t small))
      ∙ loop_round (suc fuel) _ (write_null ++ []) null [] (reads_null world.amf3_read_value [])
      ∙ loop_end fuel _
      ∙ ap ok (to_int-from_uint world.beyond t small)

  connected : (h : RtmpHandler) → h.status ≡ connect_success → (h.status == connect_success) ≡ true
  connected h s = ground (arith, s)

  on_request :
      (h : RtmpHandler) (t : ℕ)
      → t < 2 ^ 53
      → h.status ≡ connect_success
      → handle_create_stream_command world h (write_double (from_uint t) ++ (write_null ++ []))
        ≡ serializing h (new_create_stream_success_message (pos t)) [] (write_out world)
  unfolding handle_create_stream_command write_double write_null
  on_request h t small s =
      rw (connected h s, loop_on_request t 8 (pos 0) small, handle_create_stream_command) refl

  named_create_stream :
      (h : RtmpHandler) (r : Rest)
      → handle_command_message world h (command 0 (write_string (ascii "createStream") ++ r))
        ≡ with_status crtstrm_success crtstrm_fail (handle_create_stream_command world h r)
  unfolding handle_command_message command_named string_of run_command same ascii
  named_create_stream h r =
      rw
        (
          reads_text world.amf3_read_value (ascii "createStream") r (omega arith),
          handle_command_message,
        )
        refl

  -- The client's createStream message with the transaction id `t` and no object, for a handler that is
  -- connected: the answer is the success message for the same transaction id.
  pub create_stream-Echoes :
      (h : RtmpHandler) (t : ℕ)
      → t < 2 ^ 32
      → h.status ≡ connect_success
      → (m : Message) × (new_create_stream_message t none ≡ ok m)
        × (handle_command_message world h m
            ≡ with_status crtstrm_success crtstrm_fail
                (serializing h (new_create_stream_success_message (pos t)) [] (write_out world)))
  unfolding new_create_stream_message write_siblings_as_objects write_element_as_object write_value
  create_stream-Echoes h t small s =
      let name = ascii "createStream" in
      let r = write_double (from_uint t) ++ (write_null ++ []) in
      (
        command 0 (write_string name ++ r),
        refl,
        named_create_stream h r
            ∙ ap (with_status crtstrm_success crtstrm_fail) (on_request h t (omega arith) s),
      )
