-- ===== src/Exchange/Refused.antt =====
-- exchange/expair.go: a source that is refused, and then unregistered as the handlers of a connection
-- do when they stop.
use golive.Common.{◌≡◌, refl, false, none, some}
use golive.Common.Go.{ok}
use golive.Common.Go.Strings.{lookup, delete, lookup-delete}
use golive.Exchange.{Source}
use golive.Exchange.Pool.{ConnPool, handle_register_source, handle_unregister_source, pair_pad}
use golive.Exchange.Pool.{cmd_unregister_source}

-- For a stream key that has a source: the registration of another source is refused and changes
-- nothing, but when the refused one is unregistered the stream has no source any more.
pub refused_unregisters :
    (p : ConnPool) (old new : Source)
    → lookup new.handler.app_stream_key p.receivers ≡ some old
    → (handle_register_source p new ≡ (false, p))
      × ((p' : ConnPool) × (pair_pad p (cmd_unregister_source new.handler) ≡ ok p')
          × (lookup new.handler.app_stream_key p'.receivers ≡ none))
unfolding handle_register_source handle_unregister_source pair_pad
refused_unregisters p old new e =
    let key = new.handler.app_stream_key in
    let p' = record p { receivers = delete key p.receivers } in
    (
      rw (e, handle_register_source) refl,
      (
        p',
        rw (e, handle_unregister_source) refl,
        lookup-delete new.handler.app_stream_key p.receivers,
      ),
    )
