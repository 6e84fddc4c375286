-- ===== src/Rtmp/Client/Refused.antt =====
-- What the client (protocol/rtmp/response.go) does where the server refuses to connect.
use golive.Common.{
  arith, ℕ, suc, ◌+◌, ◌≡◌, ◌≢◌, refl, sym, ap, ◌∙◌, Bool, true, false, ◌==◌, Option, none, some,
  List, [], ◌∷◌, ◌++◌, length, append-nil, if◌then◌else◌,
}
use golive.Common.{inl, inr, Bool-cases}
use golive.Common.Go.{Result, Error, ok, panic, ◌>>=◌}
use golive.Common.Go.Float.{pos, from_uint, to_int}
use golive.Common.Go.Strings.{GoString, ascii, same, same_ne}
use golive.Amf.{Value, Fields, text, object, end, field}
use golive.Amf.Objects.{find}
use golive.Amf.Read.{read_value}
use golive.Amf.Write.{write_value, write_string, write_double}
use golive.Amf.RoundTrip.{IsWritable, decoded, decoded_fields}
use golive.Amf.Values.{reads_text, reads_number, reads_written}
use golive.Amf.Assert.{string_of, number_of, object_of}
use golive.Rtmp.Message.{Message}
use golive.Rtmp.Status.{connect_send}
use golive.Rtmp.Client.{RtmpClientHandler}
use golive.Rtmp.Client.Response.{
  Outside, read_name, read_number, handle_connect_response, connect_loop, connect_code,
}
use golive.Rtmp.Client.Handle.{handle_receive_message, answered}
use golive.Rtmp.Client.Answering.{is_answer, on_connect_send}

abbrev decoded_option : Option Value → Option Value
decoded_option none = none
decoded_option (some v) = some (decoded v)

find-decoded :
    (k : GoString) (fs : Fields) → find k (decoded_fields fs) ≡ decoded_option (find k fs)
unfolding find decoded
find-decoded k end = refl
find-decoded k (field k' v' fs) = elim (Bool-cases (same k' k)) [
  | inl b ↦ rw b refl
  | inr b ↦ rw b (find-decoded k fs)
]

module _ (out : Outside) where
  code-Panics :
      (s : GoString) → s ≢ ascii "NetConnection.Connect.Success" → connect_code out (text s) ≡ panic
  unfolding connect_code string_of
  code-Panics s other = rw (same_ne s _ other) refl

  abbrev code_of : Option Value → Result (Unit {0})
  code_of none = panic
  code_of (some v) = connect_code out v

  loop-Panics :
      (fuel : ℕ) (w : List ℕ) (fs : Fields) (s : GoString)
      → read_value out.amf3_read_value w ≡ ok (object fs, [])
      → find (ascii "code") fs ≡ some (text s)
      → s ≢ ascii "NetConnection.Connect.Success"
      → connect_loop out (suc fuel) w ≡ panic
  unfolding connect_loop object_of
  loop-Panics fuel w fs s reads code other =
      rw (reads, connect_loop) (go (find (ascii "code") fs) code)
    where
      go :
          (x : Option Value)
          → x ≡ some (text s)
          → (elim x [ some code ↦ connect_code out code | none ↦ connect_loop out fuel [] ]) ≡ panic
      go none e = absurd (cc)
      go (some v) e = ap (λ o. code_of o) e ∙ code-Panics s other

  answer-Panics :
      (w : List ℕ) (fs : Fields) (s : GoString)
      → write_value (object fs) ≡ ok w
      → IsWritable (object fs)
      → find (ascii "code") fs ≡ some (text s)
      → s ≢ ascii "NetConnection.Connect.Success"
      → handle_connect_response out
          (write_string (ascii "_result") ++ (write_double (from_uint 1) ++ w))
        ≡ panic
  unfolding handle_connect_response read_name read_number string_of number_of to_int decoded same
      ascii from_uint golive.Common.Go.Float.log2 golive.Common.Go.Float.log2_loop
  answer-Panics w fs s written good code other =
      let amf3 = out.amf3_read_value in
      rw
        (
          reads_text amf3 (ascii "_result") (write_double (from_uint 1) ++ w) (omega arith),
          reads_number amf3 (from_uint 1) w (omega arith),
        )
        (panicking (length w))
    where
      object_reads : read_value out.amf3_read_value w ≡ ok (object (decoded_fields fs), [])
      object_reads =
          rw append-nil at (reads_written out.amf3_read_value (object fs) w [] good written)

      panicking : (n : ℕ) → connect_loop out (n + 1) w ≡ panic
      panicking n =
          let one_more : n + 1 ≡ suc n = omega arith in
          rw one_more (
            loop-Panics n w (decoded_fields fs) s object_reads
              (find-decoded (ascii "code") fs ∙ ap decoded_option code) other)

  -- The answer to connect with a code other than success: the client reads the code, and panics where
  -- it reports it, whatever the role is.
  pub refused_connect-Panics :
      (on_write : List ℕ → Option Error) (h : RtmpClientHandler) (m : Message) (fs : Fields)
      (w : List ℕ) (s : GoString)
      → h.status ≡ connect_send
      → m.message_type ≡ 20
      → m.payload ≡ write_string (ascii "_result") ++ (write_double (from_uint 1) ++ w)
      → write_value (object fs) ≡ ok w
      → IsWritable (object fs)
      → find (ascii "code") fs ≡ some (text s)
      → s ≢ ascii "NetConnection.Connect.Success"
      → handle_receive_message out on_write h m ≡ panic
  unfolding answered
  refused_connect-Panics on_write h m fs w s status kind payload written good code other =
      rw (is_answer out on_write h m kind, on_connect_send out on_write h m status)
        (rw (payload) (rw (answer-Panics w fs s written good code other) refl))
