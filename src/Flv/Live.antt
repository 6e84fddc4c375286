-- ===== src/Flv/Live.antt =====
-- protocol/flvlive/flvlive.go: the handler of a connection that sends FLV tags.
pub mod Key
pub mod Safety
pub mod Ends
mod Examples
use golive.Common.{ℕ, zero, suc, ◌==◌, ◌&&◌, ◌||◌, leb, Bool, true, false, Option, none, some}
use golive.Common.{List, [], ◌∷◌, ◌++◌, if◌then◌else◌}
use golive.Common.Go.{Result, Error, ok, err, panic, stuck, ◌>>=◌, wrong_url, not_source}
use golive.Common.Go.{not_registered, type_error}
use golive.Common.Go.Reader.{Reader}
use golive.Common.Go.Strings.{GoString, ascii, has_prefix}
use golive.Amf.{Value, Fields, boolean, text}
use golive.Amf.Objects.{find}
use golive.Amf.Assert.{string_of}
use golive.Amf.Read.{read_object}
use golive.Amf.Amf3.Read.{amf3_read_value}
use golive.Flv.{ExData, DataType, type_data_amf0, get_next_ex_data}
use golive.Rtmp.Outcome.{Ran, done, fail, ◌>>>◌}
use golive.Rtmp.Server.{PadCall, source_determined, sink_determined, destroy_source, put_data}

-- `calls` is not a field in Go: it lists what the handler has asked of the pad. `puts` says whether
-- there is a function to put data with. `inited` is never set.
pub record FlvLiveHandler : Type 0 where
  pub app_stream_key : GoString
  pub inited : Bool
  pub puts : Bool
  pub calls : List PadCall

abbrev pub new_flv_live_handler : FlvLiveHandler
new_flv_live_handler = record { app_stream_key = []; inited = false; puts = false; calls = [] }

-- The answers of the pad for a stream key, after the handler's earlier calls. The error of putting data is dropped.
pub record Pad : Type 0 where
  pub on_source_determined : List PadCall → GoString → Option Error
  pub on_sink_determined : List PadCall → GoString → Option Error

-- `\w`
unfoldable pub is_word : ℕ → Bool
is_word c = (leb 48 c && leb c 57) || (leb 65 c && leb c 90) || (leb 97 c && leb c 122) || c == 95

-- The longest run of `\w` at the front, and what follows it.
unfoldable pub word_run : GoString → GoString × GoString
word_run [] = ([], [])
word_run (c ∷ s) = let (w, rest) = word_run s in if is_word c then (c ∷ w, rest) else ([], c ∷ s)

-- `\/(\w{1,})`, the group and what follows the match. The run of `\w` is the longest one.
unfoldable pub match_run : ℕ → GoString × GoString → Option (GoString × GoString)
match_run c ([], rest) = none
match_run c (x ∷ w, rest) = if c == 47 then some (x ∷ w, rest) else none

unfoldable pub match_word : GoString → Option (GoString × GoString)
match_word [] = none
match_word (c ∷ s) = match_run c (word_run s)

-- The groups of `\/(\w{1,})\/(\w{1,})` at the front. A shorter first group is not followed by `/`.
unfoldable pub match_front : GoString → Option (GoString × GoString)
match_front s = elim (match_word s) [
  | none ↦ none
  | some (app, rest) ↦ elim (match_word rest) [
    | none ↦ none
    | some (stream, rest') ↦ some (app, stream)
  ]
]

-- The first match, `matches[0]`.
unfoldable pub first_match : GoString → Option (GoString × GoString)
first_match [] = none
first_match (c ∷ s) = elim (match_front (c ∷ s)) [
  | some groups ↦ some groups
  | none ↦ first_match s
]

unfoldable pub get_app_stream_key : GoString → Result GoString
get_app_stream_key rtmp_url = elim (first_match rtmp_url) [
  | some (app, stream) ↦
      if has_prefix (ascii "rtmp://") rtmp_url then ok (app ++ (45 ∷ stream)) else err wrong_url
  | none ↦ err wrong_url
]

-- The key that is left when the error is dropped.
abbrev key_or_empty : Result GoString → GoString
key_or_empty (ok key) = key
key_or_empty _ = []

abbrev required : {A : Type 0} → Option A → Result A
required (some a) = ok a
required none = err type_error

abbrev bool_of : Value → Option Bool
bool_of (boolean b) = some b
bool_of _ = none

-- `objRead[name].(T)`, with a test; what is not there is no `T`.
unfoldable pub entry : {A : Type 0} → (Value → Option A) → GoString → Fields → Result A
entry assert name obj = elim (find name obj) [
  | some v ↦ required (assert v)
  | none ↦ err type_error
]

module _ (pad : Pad) where
  unfoldable pub determine : Bool → FlvLiveHandler → Ran FlvLiveHandler
  determine true f = ok (
    record f { puts = true; calls = f.calls ++ (source_determined f.app_stream_key ∷ []) },
    pad.on_source_determined f.calls f.app_stream_key,
  )
  determine false f = ok (
    record f { calls = f.calls ++ (sink_determined f.app_stream_key ∷ []) },
    pad.on_sink_determined f.calls f.app_stream_key,
  )

  -- An error that is read is one of the method.
  unfoldable pub checked :
      {A : Type 0} → FlvLiveHandler → Result A → (A → Ran FlvLiveHandler) → Ran FlvLiveHandler
  checked f (ok a) next = next a
  checked f (err e) next = fail f e
  checked f panic next = panic
  checked f stuck next = stuck

  unfoldable pub handle_script_data : FlvLiveHandler → ExData → Ran FlvLiveHandler
  handle_script_data f d = checked f (read_object amf3_read_value d.payload) (λ (obj, r).
      if f.inited
      then done f
      else checked f (entry string_of (ascii "url") obj) (λ rtmp_url.
        let f1 = record f { app_stream_key = key_or_empty (get_app_stream_key rtmp_url) } in
        checked f1 (entry bool_of (ascii "publish") obj) (λ is_publish. determine is_publish f1)))

  abbrev is_script : DataType → Bool
  is_script type_data_amf0 = true
  is_script _ = false

  -- What `Start` does with the data of a tag.
  unfoldable pub handle_ex_data : FlvLiveHandler → ExData → Ran FlvLiveHandler
  handle_ex_data f d =
      let put = done (record f { calls = f.calls ++ (put_data d ∷ []) }) in
      if is_script d.data_type
      then handle_script_data f d
      else if f.puts
      then put
      else fail f not_registered

  -- The loop of `Start`, on fuel. It is left with an error only.
  unfoldable pub live_loop : ℕ → FlvLiveHandler → Reader → Ran FlvLiveHandler
  live_loop zero f r = stuck
  live_loop (suc fuel) f r = elim (get_next_ex_data r) [
    | ok (d, r') ↦ handle_ex_data f d >>> λ f1. live_loop fuel f1 r'
    | err e ↦ fail f e
    | panic ↦ panic
    | stuck ↦ stuck
  ]

  -- `Start`, with the deferred `Cancel`. A panic is not modelled further.
  unfoldable pub start_live : ℕ → FlvLiveHandler → Reader → Ran FlvLiveHandler
  start_live fuel f r = live_loop fuel f r >>= λ (f1, e).
      ok (record f1 { calls = f1.calls ++ (destroy_source f1.app_stream_key ∷ []) }, e)

-- `WriteData`
unfoldable pub write_data : FlvLiveHandler → ExData → Result (Unit {0})
write_data f m = err not_source
