-- ===== src/Rtmp/Client/Accepts.antt =====
-- What the client (protocol/rtmp/response.go) makes of the answers that the server builds
-- (protocol/rtmp/message.go).
use golive.Common.{
  ℕ, ◌+◌, ◌<◌, ◌^◌, ◌≡◌, refl, ap, ◌∙◌, sym, arith, List, [], ◌++◌, Bool, true, false, not, ◌&&◌,
  ◌==◌,
}
use golive.Common.Go.{Result, ok, err, panic, stuck, ◌>>=◌}
use golive.Common.Go.Float.{to_uint32, from_int, pos, from_uint, from_uint_bits}
use golive.Common.Go.Strings.{ascii, same}
use golive.Amf.{Value, number, text, null}
use golive.Amf.Write.{write_value, write_string, write_double, write_null, write_siblings}
use golive.Amf.Values.{reads_text, reads_number, reads_null}
use golive.Rtmp.Commands.{
  new_connect_success_message, new_create_stream_success_message, new_publish_success_message,
}
use golive.Rtmp.Client.Response.{
  Outside, handle_connect_response, handle_create_stream_response, handle_publish_response,
  read_name, read_number, read_nil, stream_id_of, is_other_id, expected,
}
use golive.Amf.Assert.{number_of, string_of, is_nil}

module _ (out : Outside) where
  -- The client takes the server's answer to connect.
  pub connect-Accepted :
      (new_connect_success_message >>= λ m. handle_connect_response out m.payload) ≡ ok tt
  unfolding new_connect_success_message handle_connect_response
      golive.Rtmp.Client.Response.connect_code golive.Rtmp.Client.Response.connect_loop
      golive.Amf.Write.write_siblings_as_objects golive.Amf.Write.write_element_as_object
      write_value golive.Amf.Write.write_pairs read_name golive.Amf.Read.read_value
      golive.Amf.Read.read_value_loop write_string ascii golive.Amf.Write.write_utf8 write_double
      golive.Amf.Write.write_object_marker golive.Amf.Write.write_object_name
      golive.Amf.Write.write_object_end_marker golive.Amf.Read.read_byte number_of
      golive.Amf.Assert.object_of string_of golive.Amf.Decimal.decimal
      golive.Amf.Decimal.decimal_loop golive.Amf.Objects.before golive.Amf.Objects.find
      golive.Amf.Objects.put golive.Amf.Read.read_date golive.Amf.Read.read_element
      golive.Amf.Read.read_exact golive.Amf.Read.read_float golive.Amf.Read.read_marked
      golive.Amf.Read.read_object_end golive.Amf.Read.read_once golive.Amf.Read.read_property
      golive.Amf.Read.read_simple golive.Amf.Read.read_utf8 golive.Amf.Read.read_utf8_long
      golive.Amf.Write.length_items golive.Amf.Write.write_boolean write_null
      golive.Amf.Write.write_utf8_long golive.ByteIo.Get.shift_in golive.ByteIo.Get.u16_be
      golive.ByteIo.Get.u32_be golive.ByteIo.Get.u64_be from_uint golive.Common.Go.Float.log2
      golive.Common.Go.Float.log2_loop golive.Common.Go.Float.round_half_even
      golive.Common.Go.Float.to_int same read_number
  connect-Accepted = refl

  pub publish-Accepted :
      (new_publish_success_message >>= λ m. handle_publish_response out m.payload) ≡ ok tt
  unfolding new_publish_success_message handle_publish_response golive.Common.Go.Float.to_uint32
      golive.Rtmp.Client.Response.publish_code golive.Rtmp.Client.Response.publish_refused
      golive.Rtmp.Client.Response.read_map read_nil is_nil
      golive.Amf.Write.write_siblings_as_objects golive.Amf.Write.write_element_as_object
      write_value golive.Amf.Write.write_pairs read_name golive.Amf.Read.read_value
      golive.Amf.Read.read_value_loop write_string ascii golive.Amf.Write.write_utf8 write_double
      golive.Amf.Write.write_object_marker golive.Amf.Write.write_object_name
      golive.Amf.Write.write_object_end_marker golive.Amf.Read.read_byte number_of
      golive.Amf.Assert.object_of string_of golive.Amf.Decimal.decimal
      golive.Amf.Decimal.decimal_loop golive.Amf.Objects.before golive.Amf.Objects.find
      golive.Amf.Objects.put golive.Amf.Read.read_date golive.Amf.Read.read_element
      golive.Amf.Read.read_exact golive.Amf.Read.read_float golive.Amf.Read.read_marked
      golive.Amf.Read.read_object_end golive.Amf.Read.read_once golive.Amf.Read.read_property
      golive.Amf.Read.read_simple golive.Amf.Read.read_utf8 golive.Amf.Read.read_utf8_long
      golive.Amf.Write.length_items golive.Amf.Write.write_boolean write_null
      golive.Amf.Write.write_utf8_long golive.ByteIo.Get.shift_in golive.ByteIo.Get.u16_be
      golive.ByteIo.Get.u32_be golive.ByteIo.Get.u64_be from_uint golive.Common.Go.Float.log2
      golive.Common.Go.Float.log2_loop golive.Common.Go.Float.round_half_even
      golive.Common.Go.Float.to_int same read_number
  publish-Accepted = refl

  -- The answer to createStream with the transaction id `t`, as the server builds it, gives the stream
  -- id 1, whatever `t` is.
  pub create_stream-Accepted :
      (t : ℕ)
      → t < 2 ^ 53
      → (new_create_stream_success_message (pos t) >>= λ m.
          handle_create_stream_response out m.payload 0)
        ≡ ok 1
  unfolding new_create_stream_success_message handle_create_stream_response read_name read_number
      read_nil string_of number_of is_nil is_other_id stream_id_of golive.Amf.Write.write_siblings
      write_value to_uint32 from_uint same ascii golive.Common.Go.Float.log2
      golive.Common.Go.Float.log2_loop golive.Common.Go.Float.round_half_even
      golive.Common.Go.Float.to_int from_int
  create_stream-Accepted t small =
      let amf3 = out.amf3_read_value in
      let last = write_double (from_uint 1) ++ [] in
      let third = write_null ++ last in
      let second = write_double (from_uint t) ++ third in
      rw
        (
          reads_text amf3 (ascii "_result") second (omega arith),
          reads_number amf3 (from_uint t) third (from_uint_bits t small),
          reads_null amf3 last,
          reads_number amf3 (from_uint 1) [] (omega arith),
        )
        refl
