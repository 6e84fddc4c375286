-- ===== src/Exchange/Pool.antt =====
-- exchange/expair.go: the registry of sources and waiting sinks, which one goroutine (`pairPad`)
-- changes, one command at a time.
use golive.Common.{Bool, true, false, none, some, List, [], ◌∷◌, ◌++◌, map}
use golive.Common.Go.{Result, ok, panic}
use golive.Common.Go.Strings.{GoString, lookup, insert, delete}
use golive.Exchange.{StreamHandler, Sink, PadMessage, register_sink, unregister_sink, Source}
use golive.Exchange.{key_in_src_of}

pub record ConnPool : Type 0 where
  pub receivers : List (GoString × Source)
  pub waiting_senders : List (GoString × List (GoString × Sink))

-- `src.srcChan <- msg`. Where the channel is full the pool waits, and does nothing else, until the
-- source has made room.
abbrev pub send : Source → List PadMessage → Source
send src msgs = record src { src_chan = src.src_chan ++ msgs }

abbrev pub registration : GoString × Sink → PadMessage
registration (k, sink) = register_sink sink

unfoldable pub notify_wait_senders : ConnPool → Source → ConnPool
notify_wait_senders p src =
    let key = src.handler.app_stream_key in
    elim (lookup key p.waiting_senders) [
      | none ↦ p
      | some waiting ↦ record p {
        receivers = insert key (send src (map registration waiting)) p.receivers;
        waiting_senders = delete key p.waiting_senders;
      }
    ]

-- Beside the pool, whether `src.result` was sent nil and not an error.
unfoldable pub handle_register_source : ConnPool → Source → Bool × ConnPool
handle_register_source p src =
    let key = src.handler.app_stream_key in
    elim (lookup key p.receivers) [
      | some old ↦ (false, p)
      | none ↦ (true, notify_wait_senders (record p { receivers = insert key src p.receivers }) src)
    ]

unfoldable pub handle_unregister_source : ConnPool → StreamHandler → Result ConnPool
handle_unregister_source p h = elim (lookup h.app_stream_key p.receivers) [
  | none ↦ panic
  | some src ↦ ok (record p { receivers = delete h.app_stream_key p.receivers })
]

unfoldable pub add_observer : ConnPool → Sink → Result ConnPool
add_observer p sink =
    let key = sink.handler.app_stream_key in
    let key_in_src = key_in_src_of sink.handler in
    let sink' = record sink { key_in_src = key_in_src } in
    elim (lookup key p.waiting_senders) [
      | none ↦
          ok
            (record p { waiting_senders = insert key ((key_in_src, sink') ∷ []) p.waiting_senders })
      | some waiting ↦ elim (lookup key_in_src waiting) [
        | some old ↦ panic
        | none ↦ ok (record p {
          waiting_senders = insert key (insert key_in_src sink' waiting) p.waiting_senders;
        })
      ]
    ]

unfoldable pub handle_register_sink : ConnPool → Sink → Result ConnPool
handle_register_sink p sink =
    let key = sink.handler.app_stream_key in
    elim (lookup key p.receivers) [
      | none ↦ add_observer p sink
      | some src ↦
          ok (record p { receivers = insert key (send src (register_sink sink ∷ [])) p.receivers })
    ]

-- The map of the stream's waiting sinks without one, and removed when it is then empty.
unfoldable pub put_back :
    GoString
    → List (GoString × Sink)
    → List (GoString × List (GoString × Sink))
    → List (GoString × List (GoString × Sink))
put_back key [] m = delete key m
put_back key (w ∷ ws) m = insert key (w ∷ ws) m

unfoldable pub delete_observer : ConnPool → StreamHandler → Bool × ConnPool
delete_observer p h =
    let key = h.app_stream_key in
    elim (lookup key p.waiting_senders) [
      | none ↦ (false, p)
      | some waiting ↦ (
        true,
        record p {
          waiting_senders = put_back key (delete (key_in_src_of h) waiting) p.waiting_senders;
        },
      )
    ]

unfoldable pub handle_unregister_sink : ConnPool → StreamHandler → ConnPool
handle_unregister_sink p h =
    let key = h.app_stream_key in
    elim (lookup key p.receivers) [
      | none ↦ (delete_observer p h).1
      | some src ↦ record p {
        receivers = insert key (send src (unregister_sink h ∷ [])) p.receivers;
      }
    ]

pub data Command : Type 0 where
  cmd_register_source : Source → Command
  cmd_unregister_source : StreamHandler → Command
  cmd_register_sink : Sink → Command
  cmd_unregister_sink : StreamHandler → Command

-- One round of `pairPad`.
unfoldable pub pair_pad : ConnPool → Command → Result ConnPool
pair_pad p (cmd_register_source src) = ok (handle_register_source p src).1
pair_pad p (cmd_unregister_source h) = handle_unregister_source p h
pair_pad p (cmd_register_sink sink) = handle_register_sink p sink
pair_pad p (cmd_unregister_sink h) = ok (handle_unregister_sink p h)
