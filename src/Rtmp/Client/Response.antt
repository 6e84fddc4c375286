-- ===== src/Rtmp/Client/Response.antt =====
-- protocol/rtmp/response.go, and the answers to play (clientHandler.go): what the client reads from
-- the server's answers. A `fmt.Errorf` is `wrong_response` or `wrong_trans_id`, or `refused_by` with
-- the code that the server gives.
use golive.Common.{
  ℕ, zero, suc, ◌+◌, ◌==◌, Bool, true, false, not, ◌&&◌, Option, none, some, length,
}
use golive.Common.{if◌then◌else◌}
use golive.Common.Go.{Result, Error, ok, err, panic, stuck, ◌>>=◌, wrong_response, wrong_trans_id}
use golive.Common.Go.{no_stream_id, refused_by}
use golive.Common.Go.Float.{ℤ, pos, to_int, to_uint32, is_zero}
use golive.Common.Go.Strings.{GoString, ascii, same}
use golive.Amf.{Value, Fields, undefined}
use golive.Amf.Objects.{find}
use golive.Amf.Read.{Rest, read_value}
use golive.Amf.Assert.{number_of, string_of, object_of, asserted, is_nil, is_eof}
use golive.Rtmp.Server.Media.{equal}
use golive.Rtmp.Status.{play_start}

-- What is not in the source: the reader of AMF3 values, and what Go's conversions of a `float64` out of
-- range are.
pub record Outside : Type 0 where
  pub amf3_read_value : Rest → Result (Value × Rest)
  pub beyond : ℕ → ℤ
  pub beyond_uint32 : ℕ → ℕ

-- A type assertion whose failure is the error `wrong`.
abbrev pub expected : {A : Type 0} → Error → Option A → Result A
expected wrong (some a) = ok a
expected wrong none = err wrong

module _ (out : Outside) where
  -- The first value of an answer, a string that must be `name`.
  unfoldable pub read_name : GoString → Rest → Result Rest
  read_name name r = do
    (v, r1) ← read_value out.amf3_read_value r
    str ← expected wrong_response (string_of v)
    if same str name then ok r1 else err wrong_response

  unfoldable pub read_number : Error → Rest → Result (ℕ × Rest)
  read_number wrong r = do
    (v, r1) ← read_value out.amf3_read_value r
    f ← expected wrong (number_of v)
    ok (f, r1)

  unfoldable pub read_nil : Rest → Result Rest
  read_nil r = do
    (v, r1) ← read_value out.amf3_read_value r
    if is_nil v then ok r1 else err wrong_response

  unfoldable pub read_map : Rest → Result Fields
  read_map r = do (v, r1) ← read_value out.amf3_read_value r; expected wrong_response (object_of v)

  -- The test of the code in `handleConnectResponse`. To report another code, the object is asserted to
  -- be a string, which panics.
  unfoldable pub connect_code : Value → Result (Unit {0})
  connect_code code = do
    s ← asserted (string_of code)
    if same s (ascii "NetConnection.Connect.Success") then ok tt else panic

  -- The loop over the objects of `handleConnectResponse`, on fuel.
  unfoldable pub connect_loop : ℕ → Rest → Result (Unit {0})
  connect_loop zero r = stuck
  connect_loop (suc fuel) r = elim (read_value out.amf3_read_value r) [
    | ok (v, r1) ↦ expected wrong_response (object_of v) >>= λ objmap.
        elim (find (ascii "code") objmap) [
          | some code ↦ connect_code code
          | none ↦ connect_loop fuel r1
        ]
    | err e ↦ if is_eof e then err wrong_response else err e
    | panic ↦ panic
    | stuck ↦ stuck
  ]

  unfoldable pub handle_connect_response : Rest → Result (Unit {0})
  handle_connect_response payload = do
    r1 ← read_name (ascii "_result") payload
    (trans_id, r2) ← read_number wrong_trans_id r1
    if equal (to_int out.beyond trans_id) (pos 1)
        then connect_loop (length r2 + 1) r2
        else err wrong_trans_id

  unfoldable pub is_other_id : ℕ → ℕ → Bool
  is_other_id expect_trans_id trans_id =
      not (expect_trans_id == 0) && not (to_uint32 out.beyond_uint32 trans_id == expect_trans_id)

  abbrev is_undefined : Value → Bool
  is_undefined undefined = true
  is_undefined _ = false

  unfoldable pub stream_id_of : Value → Result ℕ
  stream_id_of v = elim (number_of v) [
    | some f ↦ ok (to_uint32 out.beyond_uint32 f)
    | none ↦ if is_undefined v then err no_stream_id else err wrong_response
  ]

  -- An `expect_trans_id` of 0 is not checked.
  unfoldable pub handle_create_stream_response : Rest → ℕ → Result ℕ
  handle_create_stream_response payload expect_trans_id = do
    r1 ← read_name (ascii "_result") payload
    (trans_id, r2) ← read_number wrong_trans_id r1
    if is_other_id expect_trans_id trans_id
        then err wrong_trans_id
        else (read_nil r2 >>= λ r3. read_value out.amf3_read_value r3 >>= λ (v, r4). stream_id_of v)

  -- The refusal of a publish command, with the description if there is one.
  unfoldable pub publish_refused : Fields → GoString → Result (Unit {0})
  publish_refused objmap code = elim (find (ascii "description") objmap) [
    | some desc ↦ asserted (string_of desc) >>= λ d. err (refused_by d)
    | none ↦ err (refused_by code)
  ]

  unfoldable pub publish_code : Fields → Result (Unit {0})
  publish_code objmap = elim (find (ascii "code") objmap) [
    | some v ↦ asserted (string_of v) >>= λ code.
        if same code (ascii "NetStream.Publish.Start") then ok tt else publish_refused objmap code
    | none ↦ err wrong_response
  ]

  unfoldable pub handle_publish_response : Rest → Result (Unit {0})
  handle_publish_response payload = do
    r1 ← read_name (ascii "onStatus") payload
    (trans_id, r2) ← read_number wrong_trans_id r1
    if to_uint32 out.beyond_uint32 trans_id == 0
        then (read_nil r2 >>= λ r3. read_map r3 >>= publish_code)
        else err wrong_trans_id

  -- The object of an `onStatus` message.
  unfoldable pub read_on_status : Rest → Result Fields
  read_on_status payload = do
    r1 ← read_name (ascii "onStatus") payload
    (trans_id, r2) ← read_number wrong_trans_id r1
    if is_zero trans_id then (read_nil r2 >>= read_map) else err wrong_trans_id

  unfoldable pub handle_play_response_reset : Rest → Result (Unit {0})
  handle_play_response_reset payload = do
    objmap ← read_on_status payload
    elim (find (ascii "code") objmap) [
      | some v ↦ asserted (string_of v) >>= λ code.
          if same code (ascii "NetStream.Play.Reset") then ok tt else err (refused_by code)
      | none ↦ ok tt
    ]

  -- The state to go to, or 0.
  unfoldable pub handle_play_response_start : Rest → Result ℕ
  handle_play_response_start payload = do
    objmap ← read_on_status payload
    elim (find (ascii "code") objmap) [
      | some v ↦ asserted (string_of v) >>= λ code.
          ok (if same code (ascii "NetStream.Play.Start") then play_start else 0)
      | none ↦ ok 0
    ]
