-- ===== src/Flv/Live/Examples.antt =====
-- The handler of FLV connections (protocol/flvlive/flvlive.go) at concrete connections.
use golive.Common.{◌+◌, ◌≡◌, refl, arith, none, [], ◌∷◌, ◌++◌, length}
use golive.Common.Go.{ok}
use golive.Common.Go.Reader.{Reader, bytes}
use golive.Common.Go.Strings.{ascii}
use golive.Rtmp.Outcome.{Leaves, Fails}
use golive.Flv.Live.{
  FlvLiveHandler, Pad, new_flv_live_handler, is_word, get_app_stream_key, start_live,
}
use golive.Flv.Live.Key.{key_of_named_host}
use golive.Flv.Live.Safety.{nothing, Closed, start_live-Closed}
use golive.Flv.Live.Ends.{EndsDestroyed, start_live-Fails}

-- A pad that takes every stream, and a connection that sends half a tag.
abbrev willing : Pad
willing = record {
  on_source_determined = λ before key. none;
  on_sink_determined = λ before key. none;
}

abbrev broken_off : Reader
broken_off = (9 ∷ 0 ∷ 0 ∷ []) ∷ (2 ∷ []) ∷ []

key_of_named_host_example :
    get_app_stream_key (ascii "rtmp://" ++ (ascii "localhost" ++ (47 ∷ (ascii "live" ++ []))))
    ≡ ok (ascii "localhost" ++ (45 ∷ ascii "live"))
unfolding ascii is_word
key_of_named_host_example =
    key_of_named_host (ascii "localhost") (ascii "live") []
      (refl, (refl, (refl, (refl, (refl, (refl, (refl, (refl, (refl, tt))))))))) (omega arith)
      (refl, (refl, (refl, (refl, tt)))) (omega arith) tt

start_live-Closed_example :
    Leaves
      (λ (f : FlvLiveHandler). Closed f.calls)
      (start_live willing 5 new_flv_live_handler broken_off)
start_live-Closed_example = start_live-Closed willing 5 new_flv_live_handler broken_off nothing

start_live-Fails_example :
    Fails EndsDestroyed
      (start_live willing (length (bytes broken_off) + 1) new_flv_live_handler broken_off)
start_live-Fails_example = start_live-Fails willing new_flv_live_handler broken_off
