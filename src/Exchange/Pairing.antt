-- ===== src/Exchange/Pairing.antt =====
-- The invariant of the registry: no sink waits for a stream that has a source.
use golive.Common.{◌≡◌, ◌≢◌, sym, ◌∙◌, none, some, Option-cases}
use golive.Common.{List, [], ◌∷◌, inl, inr}
use golive.Common.Go.{Result, ok, err, panic, stuck}
use golive.Common.Go.Strings.{GoString, lookup, insert, delete, lookup-delete, lookup-delete_ne}
use golive.Common.Go.Strings.{lookup-insert, lookup-insert_ne, string-cases}
use golive.Exchange.{StreamHandler, Sink, Source, key_in_src_of}
use golive.Exchange.Pool.{ConnPool, Command, pair_pad, notify_wait_senders}
use golive.Exchange.Pool.{cmd_register_source, cmd_unregister_source, cmd_register_sink}
use golive.Exchange.Pool.{cmd_unregister_sink, handle_register_source, handle_unregister_source}
use golive.Exchange.Pool.{handle_register_sink, handle_unregister_sink, add_observer, put_back}
use golive.Exchange.Pool.{delete_observer}

module _ {V W : Type 0} where
  -- No key is in both maps.
  abbrev Apart : List (GoString × V) → List (GoString × W) → Type 0
  Apart rs ws = (k : GoString) (v : V) → lookup k rs ≡ some v → lookup k ws ≡ none

module _ {W : Type 0} where
  -- No key has an empty list.
  abbrev Inhabited : List (GoString × List W) → Type 0
  Inhabited ws = (k : GoString) (w : List W) → lookup k ws ≡ some w → w ≢ []

some_ne : {V : Type 0} {v : V} → none ≢ some v
some_ne e = absurd (cc)

module _ {V W : Type 0} (rs : List (GoString × V)) (ws : List (GoString × W)) (key : GoString) where
  Apart-insert_left : (v : V) → Apart rs ws → lookup key ws ≡ none → Apart (insert key v rs) ws
  Apart-insert_left v a free k u e = elim (string-cases key k) [
    | inl q ↦ rw q at free
    | inr n ↦ a k u (sym (lookup-insert_ne key k v rs n) ∙ e)
  ]

  Apart-delete_left : Apart rs ws → Apart (delete key rs) ws
  Apart-delete_left a k u e = elim (string-cases key k) [
    | inl q ↦ absurd (some_ne (sym (lookup-delete key rs) ∙ (rw (sym q) at e)))
    | inr n ↦ a k u (sym (lookup-delete_ne key k rs n) ∙ e)
  ]

  Apart-delete_right : Apart rs ws → Apart rs (delete key ws)
  Apart-delete_right a k u e = elim (string-cases key k) [
    | inl q ↦ rw (← q) (lookup-delete key ws)
    | inr n ↦ lookup-delete_ne key k ws n ∙ a k u e
  ]

  Apart-insert_right : (w : W) → Apart rs ws → lookup key rs ≡ none → Apart rs (insert key w ws)
  Apart-insert_right w a free k u e = elim (string-cases key k) [
    | inl q ↦ absurd (some_ne (sym free ∙ (rw (sym q) at e)))
    | inr n ↦ lookup-insert_ne key k w ws n ∙ a k u e
  ]

some-inj : {V : Type 0} {a b : V} → some a ≡ some b → a ≡ b
some-inj e = cc

module _ {W : Type 0} (ws : List (GoString × List W)) (key : GoString) where
  Inhabited-insert : (w : List W) → w ≢ [] → Inhabited ws → Inhabited (insert key w ws)
  Inhabited-insert w full h k u e = elim (string-cases key k) [
    | inl q ↦ λ z. full (some-inj (sym (lookup-insert key w ws) ∙ (rw (sym q) at e)) ∙ z)
    | inr n ↦ h k u (sym (lookup-insert_ne key k w ws n) ∙ e)
  ]

  Inhabited-delete : Inhabited ws → Inhabited (delete key ws)
  Inhabited-delete h k u e = elim (string-cases key k) [
    | inl q ↦ absurd (some_ne (sym (lookup-delete key ws) ∙ (rw (sym q) at e)))
    | inr n ↦ h k u (sym (lookup-delete_ne key k ws n) ∙ e)
  ]

pub record IsPaired (p : ConnPool) : Type 0 where
  pub apart :
      (k : GoString) (src : Source)
      → lookup k p.receivers ≡ some src
      → lookup k p.waiting_senders ≡ none
  pub someone :
      (k : GoString) (w : List (GoString × Sink)) → lookup k p.waiting_senders ≡ some w → w ≢ []

-- The invariant of the two maps, which the commands change.
abbrev Both : List (GoString × Source) → List (GoString × List (GoString × Sink)) → Type 0
Both rs ws = Apart rs ws × Inhabited ws

paired : (p : ConnPool) → Both p.receivers p.waiting_senders → IsPaired p
paired p (a, s) = record { apart = a; someone = s }

abbrev IsPairedResult : Result ConnPool → Type 0
IsPairedResult (ok q) = IsPaired q
IsPairedResult (err e) = Unit {0}
IsPairedResult panic = Unit {0}
IsPairedResult stuck = Unit {0}

module _ (p : ConnPool) (h : IsPaired p) where
  with_receiver :
      (key : GoString) (src : Source)
      → lookup key p.waiting_senders ≡ none
      → IsPaired (record p { receivers = insert key src p.receivers })
  with_receiver key src free =
      paired _ (Apart-insert_left p.receivers p.waiting_senders key src h.apart free, h.someone)

  with_waiting :
      (key : GoString) (w : List (GoString × Sink))
      → lookup key p.receivers ≡ none
      → w ≢ []
      → IsPaired (record p { waiting_senders = insert key w p.waiting_senders })
  with_waiting key w free full = paired _ (
    Apart-insert_right p.receivers p.waiting_senders key w h.apart free,
    Inhabited-insert p.waiting_senders key w full h.someone,
  )

  notify_keeps :
      (src : Source)
      → lookup src.handler.app_stream_key p.receivers ≡ none
      → IsPaired (
          notify_wait_senders
            (record p { receivers = insert src.handler.app_stream_key src p.receivers })
            src)
  unfolding notify_wait_senders
  notify_keeps src fresh =
      let key = src.handler.app_stream_key in
      elim (Option-cases (lookup key p.waiting_senders)) [
        | inl e ↦
            rw (e, notify_wait_senders)
              (paired _
                (Apart-insert_left p.receivers p.waiting_senders key src h.apart e, h.someone))
        | inr (w, e) ↦
            let ws = delete key p.waiting_senders in
            rw (e, notify_wait_senders)
              (paired _ (
                Apart-insert_left (insert key src p.receivers) ws key _
                    (Apart-insert_left p.receivers ws key src
                      (Apart-delete_right p.receivers p.waiting_senders key h.apart)
                      (lookup-delete key p.waiting_senders))
                    (lookup-delete key p.waiting_senders),
                Inhabited-delete p.waiting_senders key h.someone,
              ))
      ]

  register_source_keeps : (src : Source) → IsPaired (handle_register_source p src).1
  unfolding handle_register_source
  register_source_keeps src = elim (Option-cases (lookup src.handler.app_stream_key p.receivers)) [
    | inl e ↦ rw (e, handle_register_source) (notify_keeps src e)
    | inr (old, e) ↦ rw (e, handle_register_source) h
  ]

  add_observer_keeps :
      (sink : Sink)
      → lookup sink.handler.app_stream_key p.receivers ≡ none
      → IsPairedResult (add_observer p sink)
  unfolding add_observer insert
  add_observer_keeps sink free =
      let key = sink.handler.app_stream_key in
      elim (Option-cases (lookup key p.waiting_senders)) [
        | inl e ↦ rw (e, add_observer) (with_waiting key _ free (λ z. absurd (cc)))
        | inr (w, e) ↦ elim (Option-cases (lookup (key_in_src_of sink.handler) w)) [
          | inl e' ↦ rw (e, e', add_observer) (with_waiting key _ free (λ z. absurd (cc)))
          | inr (old, e') ↦ rw (e, e', add_observer) tt
        ]
      ]

  register_sink_keeps : (sink : Sink) → IsPairedResult (handle_register_sink p sink)
  unfolding handle_register_sink
  register_sink_keeps sink =
      let key = sink.handler.app_stream_key in
      elim (Option-cases (lookup key p.receivers)) [
        | inl e ↦ rw (e, handle_register_sink) (add_observer_keeps sink e)
        | inr (src, e) ↦ rw (e, handle_register_sink) (with_receiver key _ (h.apart key src e))
      ]

  unregister_source_keeps : (x : StreamHandler) → IsPairedResult (handle_unregister_source p x)
  unfolding handle_unregister_source
  unregister_source_keeps x = elim (Option-cases (lookup x.app_stream_key p.receivers)) [
    | inl e ↦ rw (e, handle_unregister_source) tt
    | inr (src, e) ↦
        rw (e, handle_unregister_source)
          (paired _
            (Apart-delete_left p.receivers p.waiting_senders x.app_stream_key h.apart, h.someone))
  ]

  put_back_keeps :
      (key : GoString) (w : List (GoString × Sink))
      → lookup key p.receivers ≡ none
      → Both p.receivers (put_back key w p.waiting_senders)
  unfolding put_back
  put_back_keeps key [] free = (
    Apart-delete_right p.receivers p.waiting_senders key h.apart,
    Inhabited-delete p.waiting_senders key h.someone,
  )
  put_back_keeps key (x ∷ w) free = (
    Apart-insert_right p.receivers p.waiting_senders key (x ∷ w) h.apart free,
    Inhabited-insert p.waiting_senders key (x ∷ w) (λ z. absurd (cc)) h.someone,
  )

  delete_observer_keeps :
      (x : StreamHandler)
      → lookup x.app_stream_key p.receivers ≡ none
      → IsPaired (delete_observer p x).1
  unfolding delete_observer
  delete_observer_keeps x free = elim (Option-cases (lookup x.app_stream_key p.waiting_senders)) [
    | inl e ↦ rw (e, delete_observer) h
    | inr (w, e) ↦ rw (e, delete_observer) (paired _ (put_back_keeps x.app_stream_key _ free))
  ]

  unregister_sink_keeps : (x : StreamHandler) → IsPaired (handle_unregister_sink p x)
  unfolding handle_unregister_sink
  unregister_sink_keeps x = elim (Option-cases (lookup x.app_stream_key p.receivers)) [
    | inl e ↦ rw (e, handle_unregister_sink) (delete_observer_keeps x e)
    | inr (src, e) ↦
        rw (e, handle_unregister_sink)
          (with_receiver x.app_stream_key _ (h.apart x.app_stream_key src e))
  ]

  pair_pad_keeps : (c : Command) → IsPairedResult (pair_pad p c)
  unfolding pair_pad
  pair_pad_keeps (cmd_register_source src) = register_source_keeps src
  pair_pad_keeps (cmd_unregister_source x) = unregister_source_keeps x
  pair_pad_keeps (cmd_register_sink sink) = register_sink_keeps sink
  pair_pad_keeps (cmd_unregister_sink x) = unregister_sink_keeps x

-- Every command that `pairPad` handles without a panic keeps the invariant: no stream has both a
-- source and waiting sinks, and no stream has an empty map of waiting sinks.
pub pair_pad-IsPaired :
    (p q : ConnPool) (c : Command) → IsPaired p → pair_pad p c ≡ ok q → IsPaired q
pair_pad-IsPaired p q c h run = rw run at (pair_pad_keeps p h c)
