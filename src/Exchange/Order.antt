-- ===== src/Exchange/Order.antt =====
-- A sink that registers before or after its source, and a sink that comes and goes.
use golive.Common.{◌≡◌, ◌≢◌, refl, ap, ◌∙◌, none, some}
use golive.Common.{List, [], ◌∷◌, ◌++◌}
use golive.Common.Go.{ok}
use golive.Common.Go.Strings.{GoString, lookup, insert, lookup-delete}
use golive.Common.Go.Strings.{lookup-delete_ne, lookup-insert, lookup-insert_ne}
use golive.Exchange.{Sink, Source, register_sink, key_in_src_of}
use golive.Exchange.Work.{connect_sink, delete_sink, greeting}
use golive.Flv.{ExData, unnamed_type, type_video, type_audio}
use golive.Exchange.Pool.{ConnPool, send, notify_wait_senders, handle_register_source}
use golive.Exchange.Pool.{handle_register_sink, add_observer}

-- The sink with the key under which it waits and is connected.
abbrev pub keyed : Sink → Sink
keyed sink = record sink { key_in_src = key_in_src_of sink.handler }

connect-keyed : (src : Source) (sink : Sink) → connect_sink src (keyed sink) ≡ connect_sink src sink
unfolding connect_sink
connect-keyed src sink = refl

-- A sink of the stream of `src`.
abbrev pub sink_of : Source → GoString → List ExData → GoString → Sink
sink_of src pointer msgs noted = record {
  handler = record { app_stream_key = src.handler.app_stream_key; pointer = pointer };
  msg_chan = msgs;
  key_in_src = noted;
}

module _ (p : ConnPool) (src : Source) (pointer : GoString) (msgs : List ExData) (noted : GoString)
    (no_source : lookup src.handler.app_stream_key p.receivers ≡ none)
    (no_sink : lookup src.handler.app_stream_key p.waiting_senders ≡ none) where
  abbrev key : GoString
  key = src.handler.app_stream_key

  abbrev sink : Sink
  sink = sink_of src pointer msgs noted

  abbrev waiting_pool : ConnPool
  waiting_pool = record p {
    waiting_senders = insert key ((key_in_src_of sink.handler, keyed sink) ∷ []) p.waiting_senders;
  }

  sink_waits : handle_register_sink p sink ≡ ok waiting_pool
  unfolding handle_register_sink add_observer
  sink_waits = rw (no_source, no_sink, handle_register_sink, add_observer) refl

  source_follows :
      lookup key (handle_register_source waiting_pool src).1.receivers
      ≡ some (send src (register_sink (keyed sink) ∷ []))
  unfolding handle_register_source notify_wait_senders
  source_follows =
      rw
        (
          no_source,
          handle_register_source,
          notify_wait_senders,
          lookup-insert key ((key_in_src_of sink.handler, keyed sink) ∷ []) p.waiting_senders,
        )
        (lookup-insert key _ (insert key src p.receivers))

  abbrev served_pool : ConnPool
  served_pool = record p { receivers = insert key src p.receivers }

  source_first : (handle_register_source p src).1 ≡ served_pool
  unfolding handle_register_source notify_wait_senders
  source_first = rw (no_source, no_sink, handle_register_source, notify_wait_senders) refl

  sink_follows :
      handle_register_sink served_pool sink
      ≡ ok (record served_pool {
        receivers = insert key (send src (register_sink sink ∷ [])) served_pool.receivers;
      })
  unfolding handle_register_sink
  sink_follows = rw (lookup-insert key src p.receivers, handle_register_sink) refl

  -- For a stream that has neither a source nor a waiting sink: the registration of the sink succeeds
  -- before that of the source and after it, and in both orders the source that is then
  -- registered for the stream has the registration of the sink last in its channel; the two
  -- registrations differ at most in the key noted in the sink, and connecting either gives the
  -- same, whatever the source.
  pub register_order :
      (early late : ConnPool) × (handle_register_sink p sink ≡ ok early)
      × (handle_register_sink (handle_register_source p src).1 sink ≡ ok late)
      × (lookup key (handle_register_source early src).1.receivers
          ≡ some (send src (register_sink (keyed sink) ∷ [])))
      × (lookup key late.receivers ≡ some (send src (register_sink sink ∷ [])))
      × ((s : Source) → connect_sink s (keyed sink) ≡ connect_sink s sink)
  register_order = (
    waiting_pool,
    record served_pool {
      receivers = insert key (send src (register_sink sink ∷ [])) served_pool.receivers;
    },
    sink_waits,
    ap (λ q. handle_register_sink q sink) source_first ∙ sink_follows,
    source_follows,
    lookup-insert key (send src (register_sink sink ∷ [])) served_pool.receivers,
    λ s. connect-keyed s sink,
  )

-- The sink as it is connected.
abbrev welcomed : Source → Sink → Sink
welcomed src sink = record sink {
  key_in_src = key_in_src_of sink.handler;
  msg_chan =
      sink.msg_chan
      ++ (greeting (unnamed_type 0x12) src.av_meta_data
          ++ (greeting type_video src.video_decoder_configuration_record
              ++ greeting type_audio src.aac_sequence_header));
}

-- A sink whose key is not connected yet is connected, and after `deleteSink` it is connected no
-- more, has been cancelled, and every other sink of the source is what it was.
pub connect-delete_sink :
    (src : Source) (sink : Sink) (other : GoString)
    → lookup (key_in_src_of sink.handler) src.sinks ≡ none
    → key_in_src_of sink.handler ≢ other
    → (src' : Source) × (connect_sink src sink ≡ ok src')
      × (lookup other src'.sinks ≡ lookup other src.sinks)
      × (lookup (key_in_src_of sink.handler) (delete_sink src' sink.handler).sinks ≡ none)
      × (lookup other (delete_sink src' sink.handler).sinks ≡ lookup other src.sinks)
      × ((delete_sink src' sink.handler).cancelled ≡ src.cancelled ++ (sink.handler ∷ []))
unfolding connect_sink delete_sink
connect-delete_sink src sink other fresh n =
    let key = key_in_src_of sink.handler in
    let connected = welcomed src sink in
    let found = lookup-insert key connected src.sinks in
    (
      record src { sinks = insert key connected src.sinks },
      rw (fresh, connect_sink) refl,
      lookup-insert_ne key other connected src.sinks n,
      rw (found, delete_sink) (lookup-delete key (insert key connected src.sinks)),
      rw (found, delete_sink)
          (lookup-delete_ne key other (insert key connected src.sinks) n
            ∙ lookup-insert_ne key other connected src.sinks n),
      rw (found, delete_sink) refl,
    )
