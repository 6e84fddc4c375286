-- ===== src/Rtmp/Server/Start.antt =====
-- protocol/rtmp/serverHandler.go: `Start` as a whole, from the handshake to the deferred `stop`.
use golive.Common.{ℕ, ◌≡◌, ◌⊎◌, refl, inl, inr, some, List}
use golive.Common.Go.{Result, ok, err, panic, stuck}
use golive.Common.Go.Reader.{Reader}
use golive.Rtmp.Outcome.{Leaves, leaves, errs, panics, ends}
use golive.Rtmp.Handshake.Server.{Random, handshake_server}
use golive.Rtmp.Server.{RtmpHandler, World, Outcome, new_rtmp_handler}
use golive.Rtmp.Server.Serve.{stop_handler, started, serve_loop}
use golive.Rtmp.Server.Valid.{IsValid}
use golive.Rtmp.Server.Safety.{serve-IsValid}

-- `defer func() { h.stop() }()`
unfoldable pub deferred_stop : Outcome → Outcome
deferred_stop (ok (h, e)) = ok (stop_handler h, e)
deferred_stop (err e) = err e
deferred_stop panic = panic
deferred_stop stuck = stuck

-- `Start` on fuel, a round for each message. `hmac k d` is the HMAC-SHA256 of `d` under the key `k`, and
-- `rand` the random bytes of the handshake. `stop` is deferred only after the handshake.
unfoldable pub start_server : World → (List ℕ → List ℕ → List ℕ) → Random → ℕ → ℕ → Reader → Outcome
start_server world hmac rand fuel first_byte r =
    elim (handshake_server hmac world.on_write rand (some first_byte) r).left [
      | ok r1 ↦ deferred_stop (serve_loop world fuel started r1)
      | err e ↦ ok (new_rtmp_handler, some e)
      | panic ↦ panic
      | stuck ↦ stuck
    ]

-- The handler was never started, or it was valid and then stopped.
abbrev pub Ended : RtmpHandler → Type 0
Ended h = (h ≡ new_rtmp_handler) ⊎ ((h' : RtmpHandler) × IsValid h' × (h ≡ stop_handler h'))

deferred_stop-Ended : (o : Outcome) → Leaves IsValid o → Leaves Ended (deferred_stop o)
unfolding deferred_stop
deferred_stop-Ended (ok (h, e)) (leaves v) = leaves (inr (h, v, refl))
deferred_stop-Ended (err e) errs = errs
deferred_stop-Ended panic panics = panics
deferred_stop-Ended stuck ends = ends

-- Whatever a connection sends, in the handshake and after it, and however the exchange and the
-- connection answer: when Start returns, the handler is as it was made, or stop was called on a handler
-- that is valid: it has put data only after it determined a source, its role is that of its last such
-- call, and its codecs are unknown or supported ones.
pub start_server-Ended :
    (world : World) (hmac : List ℕ → List ℕ → List ℕ) (rand : Random) (fuel first_byte : ℕ)
    (r : Reader)
    → Leaves Ended (start_server world hmac rand fuel first_byte r)
unfolding start_server
start_server-Ended world hmac rand fuel first_byte r =
    go (handshake_server hmac world.on_write rand (some first_byte) r).left
  where
    go :
        (left : Result Reader)
        → Leaves Ended (elim left [
          | ok r1 ↦ deferred_stop (serve_loop world fuel started r1)
          | err e ↦ ok (new_rtmp_handler, some e)
          | panic ↦ panic
          | stuck ↦ stuck
        ])
    go (ok r1) = deferred_stop-Ended _ (serve-IsValid world fuel r1)
    go (err e) = leaves (inl refl)
    go panic = panics
    go stuck = ends
