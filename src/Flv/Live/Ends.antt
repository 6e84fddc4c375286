-- ===== src/Flv/Live/Ends.antt =====
-- `Start` of the handler of FLV connections (protocol/flvlive/flvlive.go) ends where the connection does.
use golive.Common.{
  arith, ◌≡◌, refl, ℕ, zero, suc, ◌+◌, ◌<◌, ◌≤◌, ◌%◌, ◌^◌, Bool, true, false, Option, none, some,
  List, [], ◌∷◌, ◌++◌, length, drop, ◌==◌, if◌then◌else◌,
}
use golive.Common.Go.{
  Result, ok, err, panic, stuck, ◌>>=◌, not_registered, previous_tag_len, type_error,
}
use golive.Common.Go.Reader.{Reader, bytes}
use golive.Common.Go.Reader.Drain.{
  Drains, drained, failed, panicked, Returns, returned, erred, broke, Drains-bind, Drains-aside,
  Drains-if, Drains-after, read_full-Drains,
}
use golive.Common.Go.Strings.{GoString, ascii}
use golive.ByteIo.Get.{u8, u24_be, u32_be}
use golive.Amf.{Value, Fields}
use golive.Amf.Objects.{find}
use golive.Amf.Read.{Rest, read_object}
use golive.Amf.Total.{Takes, gives, fails, panics}
use golive.Amf.Amf3.Read.{amf3_read_value}
use golive.Amf.Amf3.Total.{amf3_read_value-Takes}
use golive.Flv.{
  from_tag, type_data_amf0, type_data_amf3, format_data, FlvTag, ExData, parse_tag,
  get_next_ex_data, ex_data_of, get_audio_ex_data, get_video_ex_data, get_script_ex_data,
}
use golive.Amf.Assert.{string_of}
use golive.Rtmp.Server.{put_data, destroy_source, PadCall}
use golive.Rtmp.Outcome.{
  Ran, fail, ◌>>>◌, Answers, answers, broken, Fails, fails_with, crashes, Fails-after,
}
use golive.Flv.Live.{
  FlvLiveHandler, Pad, determine, checked, handle_script_data, handle_ex_data, live_loop,
  start_live, is_script, entry, required, bool_of, key_or_empty, get_app_stream_key,
}

u8-Returns : (b : List ℕ) → Returns (u8 b)
unfolding u8
u8-Returns [] = broke
u8-Returns (a ∷ b) = returned a

u24-Returns : (b : List ℕ) → Returns (u24_be b)
unfolding u24_be
u24-Returns [] = broke
u24-Returns (a ∷ []) = broke
u24-Returns (a ∷ b ∷ []) = broke
u24-Returns (a ∷ b ∷ c ∷ r) = returned _

u32-Returns : (b : List ℕ) → Returns (u32_be b)
unfolding u32_be
u32-Returns [] = broke
u32-Returns (a ∷ []) = broke
u32-Returns (a ∷ b ∷ []) = broke
u32-Returns (a ∷ b ∷ c ∷ []) = broke
u32-Returns (a ∷ b ∷ c ∷ d ∷ r) = returned _

module _ {A B : Type 0} where
  Returns-bind :
      (x : Result A) (f : A → Result B) → Returns x → ((a : A) → Returns (f a)) → Returns (x >>= f)
  Returns-bind (ok a) f (returned b) g = g a
  Returns-bind (err e) f (erred e') g = erred e
  Returns-bind panic f broke g = broke
  Returns-bind stuck f v g = elim v [ ]

Returns-if :
    {A : Type 0} (b : Bool) {x y : Result A} → Returns x → Returns y → Returns (if b then x else y)
Returns-if true p q = p
Returns-if false p q = q

-- A tag has eleven bytes before its data.
parse_tag-Drains : (r : Reader) → Drains 11 r (parse_tag r)
unfolding parse_tag
parse_tag-Drains r = Drains-bind _ (read_full-Drains 11 r) (λ bin r1 l1.
    Drains-aside _ (u8-Returns bin) (λ t. Drains-aside _ (u24-Returns (drop 1 bin)) (λ size.
      Drains-aside _ (u24-Returns (drop 4 bin)) (λ time.
        Drains-aside _ (u8-Returns (drop 7 bin)) (λ ext.
          Drains-aside _ (u24-Returns (drop 8 bin)) (λ id.
            Drains-bind {k = 11} _
              (Drains-after size 11 r1 (read_full-Drains size r1) l1 (omega arith))
              (λ payload r2 l2.
                Drains-bind {k = 11} _
                  (Drains-after 4 11 r2 (read_full-Drains 4 r2) l2 (omega arith))
                  (λ len r3 l3. Drains-aside _ (u32-Returns len) (λ expect_len.
                    Drains-if (expect_len == ((size + 11) % 2 ^ 32)) (drained _ r3 l3)
                      (failed (previous_tag_len expect_len size)))))))))))

audio-Returns : (tag : FlvTag) → Returns (get_audio_ex_data tag)
unfolding get_audio_ex_data
audio-Returns tag = Returns-bind _ _ (u8-Returns tag.payload) (λ first.
    Returns-if _ (Returns-bind _ _ (u8-Returns (drop 1 tag.payload)) (λ second. returned _))
      (erred _))

video-Returns : (tag : FlvTag) → Returns (get_video_ex_data tag)
unfolding get_video_ex_data
video-Returns tag = Returns-bind _ _ (u8-Returns tag.payload) (λ first.
    Returns-if _ (Returns-bind _ _ (u8-Returns (drop 1 tag.payload)) (λ second. returned _))
      (erred _))

ex_data_of-Returns : (tag : FlvTag) → Returns (ex_data_of tag)
unfolding ex_data_of get_script_ex_data
ex_data_of-Returns tag = Returns-if _ (audio-Returns tag) (
    Returns-if _ (video-Returns tag) (
      Returns-if (tag.tag_type == 18) (returned (from_tag tag type_data_amf0 format_data)) (
        Returns-if (tag.tag_type == 0xf) (returned (from_tag tag type_data_amf3 format_data))
          broke)))

get_next_ex_data-Drains : (r : Reader) → Drains 1 r (get_next_ex_data r)
unfolding get_next_ex_data
get_next_ex_data-Drains r =
    Drains-bind _ (parse_tag-Drains r)
      (λ tag r1 l. Drains-aside _ (ex_data_of-Returns tag) (λ d. drained d r1 (omega arith)))

-- The methods, as far as they come back.
Answers-if :
    (b : Bool) {x y : Ran FlvLiveHandler} → Answers x → Answers y → Answers (if b then x else y)
Answers-if true p q = p
Answers-if false p q = q

abbrev IsAny : FlvLiveHandler → Type 0
IsAny f = Unit {0}

-- The last call of the pad is that of `OnDestroySource` for the key of the handler.
abbrev pub EndsDestroyed : FlvLiveHandler → Type 0
EndsDestroyed f =
    (before : List PadCall) × (f.calls ≡ before ++ (destroy_source f.app_stream_key ∷ []))

module _ (pad : Pad) where
  checked-Answers :
      {A : Type 0} (f : FlvLiveHandler) (x : Result A) (next : A → Ran FlvLiveHandler)
      → Returns x
      → ((a : A) → Answers (next a))
      → Answers (checked pad f x next)
  unfolding checked
  checked-Answers f (ok a) next (returned b) g = g a
  checked-Answers f (err e) next (erred e') g = answers _ _
  checked-Answers f panic next broke g = broken
  checked-Answers f stuck next v g = elim v [ ]

  read_object-Returns : (p : Rest) → Returns (read_object amf3_read_value p)
  read_object-Returns p = go (read_object amf3_read_value p) (amf3_read_value-Takes p).1.1
    where
      go : (x : Result (Fields × Rest)) → Takes 1 p x → Returns x
      go (ok _) (gives a r' l) = returned _
      go (err _) (fails e) = erred e
      go panic panics = broke
      go stuck v = elim v [ ]

  entry-Returns :
      {A : Type 0} (assert : Value → Option A) (name : GoString) (obj : Fields)
      → Returns (entry assert name obj)
  unfolding entry
  entry-Returns {A} assert name obj = go (find name obj)
    where
      asserted : (x : Option A) → Returns (required x)
      asserted (some a) = returned a
      asserted none = erred type_error

      go :
          (x : Option Value)
          → Returns (elim x [ some v ↦ required (assert v) | none ↦ err type_error ])
      go (some v) = asserted (assert v)
      go none = erred type_error

  determine-Answers : (b : Bool) (f : FlvLiveHandler) → Answers (determine pad b f)
  unfolding determine
  determine-Answers true f = answers _ _
  determine-Answers false f = answers _ _

  script-Answers : (f : FlvLiveHandler) (d : ExData) → Answers (handle_script_data pad f d)
  unfolding handle_script_data
  script-Answers f d =
      checked-Answers f (read_object amf3_read_value d.payload) _ (read_object-Returns d.payload)
        (λ (obj, r). Answers-if f.inited (answers _ _) (
          checked-Answers f (entry string_of (ascii "url") obj) _ (entry-Returns string_of _ obj)
            (λ url.
              let f1 = record f { app_stream_key = key_or_empty (get_app_stream_key url) } in
              checked-Answers f1 (entry bool_of (ascii "publish") obj) _
                (entry-Returns bool_of _ obj) (λ b. determine-Answers b f1))))

  handle_ex_data-Answers : (f : FlvLiveHandler) (d : ExData) → Answers (handle_ex_data pad f d)
  unfolding handle_ex_data
  handle_ex_data-Answers f d = Answers-if (is_script pad d.data_type) (script-Answers f d) (
      Answers-if f.puts (answers (record f { calls = f.calls ++ (put_data d ∷ []) }) none)
        (answers f (some not_registered)))

  loop-Fails :
      (fuel : ℕ) (f : FlvLiveHandler) (r : Reader)
      → length (bytes r) < fuel
      → Fails IsAny (live_loop pad fuel f r)
  unfolding live_loop
  loop-Fails zero f r h = absurd (omega arith)
  loop-Fails (suc fuel) f r h =
      go (get_next_ex_data r) (get_next_ex_data-Drains r)
        (λ f1 r' l. loop-Fails fuel f1 r' (omega arith))
    where
      go :
          (x : Result (ExData × Reader))
          → Drains 1 r x
          → ((f1 : FlvLiveHandler) (r' : Reader)
              → length (bytes r') + 1 ≤ length (bytes r)
              → Fails IsAny (live_loop pad fuel f1 r'))
          → Fails IsAny (elim x [
            | ok (d, r') ↦ handle_ex_data pad f d >>> λ f1. live_loop pad fuel f1 r'
            | err e ↦ fail f e
            | panic ↦ panic
            | stuck ↦ stuck
          ])
      go (ok _) (drained d r' l) more =
          Fails-after (handle_ex_data pad f d) _ (handle_ex_data-Answers f d) (λ f1. tt)
            (λ f1. more f1 r' l)
      go (err e) (failed e') more = fails_with tt
      go panic panicked more = crashes
      go stuck v more = elim v [ ]

  destroyed :
      (x : Ran FlvLiveHandler)
      → Fails IsAny x
      → Fails EndsDestroyed (
          x >>= λ (f1, e).
          ok (record f1 { calls = f1.calls ++ (destroy_source f1.app_stream_key ∷ []) }, e))
  destroyed (ok (f1, none)) v = elim v [ ]
  destroyed (ok (f1, some e)) (fails_with u) = fails_with (f1.calls, refl)
  destroyed (err e) v = elim v [ ]
  destroyed panic crashes = crashes
  destroyed stuck v = elim v [ ]

  -- On every connection that ends, Start ends within as many rounds as the connection has bytes, and
  -- one: with an error, its last call of the pad being OnDestroySource for the key that the handler
  -- has then, or with a panic.
  pub start_live-Fails :
      (f : FlvLiveHandler) (r : Reader)
      → Fails EndsDestroyed (start_live pad (length (bytes r) + 1) f r)
  unfolding start_live
  start_live-Fails f r =
      destroyed (live_loop pad (length (bytes r) + 1) f r)
        (loop-Fails (length (bytes r) + 1) f r (omega arith))
