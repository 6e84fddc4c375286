-- ===== src/Flv/Live/Safety.antt =====
-- What the handler of FLV connections (protocol/flvlive/flvlive.go) asks of the pad.
use golive.Common.{
  ◌≡◌, refl, sym, ap, ℕ, zero, suc, Bool, true, false, List, [], ◌∷◌, ◌++◌, if◌then◌else◌,
}
use golive.Common.Go.{Result, ok, err, panic, stuck, ◌>>=◌, not_registered}
use mathlib.Core.Path.{transport}
use golive.Common.Go.Reader.{Reader}
use golive.Common.Go.Strings.{GoString, ascii}
use golive.Amf.Assert.{string_of}
use golive.Amf.Read.{read_object}
use golive.Amf.Amf3.Read.{amf3_read_value}
use golive.Flv.{ExData, get_next_ex_data}
use golive.Rtmp.Outcome.{
  Ran, done, fail, ◌>>>◌, Leaves, leaves, errs, panics, ends, Leaves-then, Leaves-if,
}
use golive.Rtmp.Server.{PadCall, source_determined, sink_determined, destroy_source, put_data}
use golive.Flv.Live.{
  FlvLiveHandler, Pad, determine, checked, handle_script_data, handle_ex_data, live_loop,
  start_live, is_script, entry, bool_of, key_or_empty, get_app_stream_key,
}

-- The calls of the pad before Start returns, and whether there is a function to put data with: data is
-- put only after a source was determined.
pub data Asked : Bool → List PadCall → Type 0 where
  nothing : Asked false []
  as_source :
      {b : Bool} {cs : List PadCall} (key : GoString)
      → Asked b cs
      → Asked true (cs ++ (source_determined key ∷ []))
  as_sink :
      {b : Bool} {cs : List PadCall} (key : GoString)
      → Asked b cs
      → Asked b (cs ++ (sink_determined key ∷ []))
  puts : {cs : List PadCall} (d : ExData) → Asked true cs → Asked true (cs ++ (put_data d ∷ []))

-- The calls of a connection that has ended.
pub data Closed : List PadCall → Type 0 where
  closed :
      {b : Bool} {cs : List PadCall} (key : GoString)
      → Asked b cs
      → Closed (cs ++ (destroy_source key ∷ []))

abbrev Valid : FlvLiveHandler → Type 0
Valid f = Asked f.puts f.calls

module _ (pad : Pad) where
  determine-Valid : (b : Bool) (f : FlvLiveHandler) → Valid f → Leaves Valid (determine pad b f)
  unfolding determine
  determine-Valid true f v = leaves (as_source f.app_stream_key v)
  determine-Valid false f v = leaves (as_sink f.app_stream_key v)

  checked-Valid :
      {A : Type 0} (f : FlvLiveHandler) (x : Result A) (next : A → Ran FlvLiveHandler)
      → Valid f
      → ((a : A) → Leaves Valid (next a))
      → Leaves Valid (checked pad f x next)
  unfolding checked
  checked-Valid f (ok a) next v g = g a
  checked-Valid f (err e) next v g = leaves v
  checked-Valid f panic next v g = panics
  checked-Valid f stuck next v g = ends

  script-Valid :
      (f : FlvLiveHandler) (d : ExData) → Valid f → Leaves Valid (handle_script_data pad f d)
  unfolding handle_script_data
  script-Valid f d v = checked-Valid f (read_object amf3_read_value d.payload) _ v (λ (obj, r).
      Leaves-if f.inited (leaves v) (
        checked-Valid f (entry string_of (ascii "url") obj) _ v (λ url.
          let f1 = record f { app_stream_key = key_or_empty (get_app_stream_key url) } in
          checked-Valid f1 (entry bool_of (ascii "publish") obj) _ v
            (λ b. determine-Valid b f1 v))))

  handle_ex_data-Valid :
      (f : FlvLiveHandler) (d : ExData) → Valid f → Leaves Valid (handle_ex_data pad f d)
  unfolding handle_ex_data
  handle_ex_data-Valid f d v =
      Leaves-if (is_script pad d.data_type) (script-Valid f d v) (putting f.puts refl)
    where
      putting :
          (b : Bool)
          → f.puts ≡ b
          → Leaves Valid (
              if b
              then done (record f { calls = f.calls ++ (put_data d ∷ []) })
              else fail f not_registered)
      putting false e = leaves v
      putting true e = leaves (
          transport (ap (λ (b : Bool). Asked b (f.calls ++ (put_data d ∷ []))) (sym e))
            (puts d (transport (ap (λ (b : Bool). Asked b f.calls) e) v)))

  loop-Valid :
      (fuel : ℕ) (f : FlvLiveHandler) (r : Reader) → Valid f → Leaves Valid (live_loop pad fuel f r)
  unfolding live_loop
  loop-Valid zero f r v = ends
  loop-Valid (suc fuel) f r v = go (get_next_ex_data r) (λ f1 r' v1. loop-Valid fuel f1 r' v1)
    where
      go :
          (x : Result (ExData × Reader))
          → ((f1 : FlvLiveHandler) (r' : Reader)
              → Valid f1
              → Leaves Valid (live_loop pad fuel f1 r'))
          → Leaves Valid (elim x [
            | ok (d, r') ↦ handle_ex_data pad f d >>> λ f1. live_loop pad fuel f1 r'
            | err e ↦ fail f e
            | panic ↦ panic
            | stuck ↦ stuck
          ])
      go (ok (d, r')) more = Leaves-then _ _ (handle_ex_data-Valid f d v) (λ f1 v1. more f1 r' v1)
      go (err e) more = leaves v
      go panic more = panics
      go stuck more = ends

  -- Whatever tags a connection sends, and whatever the pad answers: when Start returns, the handler has
  -- put data only after it determined a source, and its last call of the pad destroys its source.
  pub start_live-Closed :
      (fuel : ℕ) (f : FlvLiveHandler) (r : Reader)
      → Asked f.puts f.calls
      → Leaves (λ f'. Closed f'.calls) (start_live pad fuel f r)
  unfolding start_live
  start_live-Closed fuel f r v = go (live_loop pad fuel f r) (loop-Valid fuel f r v)
    where
      go :
          (x : Ran FlvLiveHandler)
          → Leaves Valid x
          → Leaves
              (λ f'. Closed f'.calls)
              (x >>= λ (f1, e).
                ok (record f1 { calls = f1.calls ++ (destroy_source f1.app_stream_key ∷ []) }, e))
      go (ok (f1, e)) (leaves w) = leaves (closed f1.app_stream_key w)
      go (err e) errs = errs
      go panic panics = panics
      go stuck ends = ends
