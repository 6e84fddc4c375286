-- ===== src/Rtmp/Server/Ends.antt =====
-- The loop over the values of a createStream command ends (protocol/rtmp/serverHandler.go).
use golive.Common.{ℕ, zero, suc, ◌+◌, ◌<◌, arith, length, Bool, true, false, if◌then◌else◌}
use golive.Common.Go.{Result, Error, ok, err, panic, stuck}
use golive.Common.Go.Float.{ℤ, pos}
use golive.Amf.{Value}
use golive.Amf.Read.{Rest, read_value}
use golive.Amf.Total.{Takes, gives, fails, panics, readers-Takes}
use golive.Rtmp.Server.{World}
use golive.Rtmp.Server.Media.{number_of, is_eof}
use golive.Rtmp.Server.Command.{create_stream_loop, next_id}

-- A loop that has not run out of fuel.
pub data Ends : Result ℤ → Type 0 where
  given : (id : ℤ) → Ends (ok id)
  failed : (e : Error) → Ends (err e)
  panicked : Ends panic

Ends-if : (b : Bool) {x y : Result ℤ} → Ends x → Ends y → Ends (if b then x else y)
Ends-if true p q = p
Ends-if false p q = q

module _ (world : World) (amf3-Takes : (r : Rest) → Takes 0 r (world.amf3_read_value r)) where
  loop-Ends :
      (fuel : ℕ) (id : ℤ) (r : Rest) → length r < fuel → Ends (create_stream_loop world fuel id r)
  unfolding create_stream_loop
  loop-Ends zero id r l = absurd (omega arith)
  loop-Ends (suc fuel) id r l =
      go (loop-Ends fuel) (read_value world.amf3_read_value r)
        (readers-Takes world.amf3_read_value amf3-Takes r).0
    where
      go :
          ((id' : ℤ) (r' : Rest) → length r' < fuel → Ends (create_stream_loop world fuel id' r'))
          → (x : Result (Value × Rest)) → Takes 1 r x
          → Ends (elim x [
            | ok (v, r') ↦ create_stream_loop world fuel (next_id world.beyond (number_of v) id) r'
            | err e ↦ if is_eof e then ok id else err e
            | panic ↦ panic
            | stuck ↦ stuck
          ])
      go next (ok _) (gives v r' k) = next _ r' (omega (arith, k, l))
      go next (err _) (fails e) = Ends-if (is_eof e) (given id) (failed e)
      go next panic panics = panicked
      go next stuck t = elim t [ ]

  -- The loop of `handleCreateStreamCommand` ends on every payload, with a transaction id, an error or a
  -- panic, within the rounds that the handler's model gives it, if the reader of AMF3 values ends
  -- and adds no bytes.
  pub create_stream_loop-Ends :
      (r : Rest) → Ends (create_stream_loop world (length r + 1) (pos 0) r)
  create_stream_loop-Ends r = loop-Ends (length r + 1) (pos 0) r (omega arith)
