-- ===== src/Exchange/FanOut.antt =====
-- exchange/expair.go: what the data of a source comes to at its sinks.
use golive.Common.{
  ◌≡◌, ◌≢◌, refl, sym, ap, ◌∙◌, true, Option, none, some, Option-cases, List, [], ◌∷◌, ◌++◌, length,
  inl, inr, Bool-cases, ltb, if◌then◌else◌,
}
use golive.Common.Go.Strings.{
  GoString, same, same_refl, same_ne, lookup, lookup-insert, lookup-insert_ne, lookup-delete,
  lookup-delete_ne, string-cases,
}
use golive.Flv.{ExData, format_avc, protocol_none}
use golive.Exchange.{Sink, Source}
use golive.Exchange.Work.{write_to, write_each, write_data}

abbrev pub Sinks : Type 0
Sinks = List (GoString × Sink)

-- Every sink stands under the key that it knows itself by, and under no other entry.
unfoldable pub Keyed : Sinks → Type 0
Keyed [] = Unit {0}
Keyed ((k, s) ∷ rest) = (s.key_in_src ≡ k) × (lookup k rest ≡ none) × Keyed rest

-- What a message makes of the entry of a sink: it waits behind the others in the sink's channel, or the
-- sink is gone, if 50 messages wait there.
abbrev pub delivered : ExData → Option Sink → Option Sink
delivered m none = none
delivered m (some s) =
    if ltb (length s.msg_chan) 50
    then some (record s { msg_chan = s.msg_chan ++ (m ∷ []) })
    else none

lookup-write_to :
    (m : ExData) (k : GoString) (s : Sink) (src : Source)
    → s.key_in_src ≡ k
    → lookup k (write_to m k s src).sinks ≡ delivered m (some s)
unfolding write_to
lookup-write_to m k s src e = elim (Bool-cases (ltb (length s.msg_chan) 50)) [
  | inl room ↦ rw room (lookup-insert k (record s { msg_chan = s.msg_chan ++ (m ∷ []) }) src.sinks)
  | inr full ↦ rw (full, e) (lookup-delete k src.sinks)
]

lookup-write_to_ne :
    (m : ExData) (k j : GoString) (s : Sink) (src : Source)
    → s.key_in_src ≡ k
    → k ≢ j
    → lookup j (write_to m k s src).sinks ≡ lookup j src.sinks
unfolding write_to
lookup-write_to_ne m k j s src e n = elim (Bool-cases (ltb (length s.msg_chan) 50)) [
  | inl room ↦
      rw room (lookup-insert_ne k j (record s { msg_chan = s.msg_chan ++ (m ∷ []) }) src.sinks n)
  | inr full ↦ rw (full, e) (lookup-delete_ne k j src.sinks n)
]

-- The entry after the loop, from the one in what the loop runs over and the one before.
after_loop : ExData → Option Sink → Option Sink → Option Sink
after_loop m none old = old
after_loop m (some s) old = delivered m (some s)

lookup-write_each :
    (m : ExData) (todo : Sinks) (src : Source) (j : GoString)
    → Keyed todo
    → lookup j (write_each m todo src).sinks ≡ after_loop m (lookup j todo) (lookup j src.sinks)
unfolding write_each Keyed after_loop lookup
lookup-write_each m [] src j v = refl
lookup-write_each m ((k, s) ∷ rest) src j (own, alone, v) = elim (string-cases k j) [
  | inl e ↦
      let later = lookup-write_each m rest (write_to m k s src) k v in
      let here : lookup k (write_each m rest (write_to m k s src)).sinks ≡ delivered m (some s) =
        later
        ∙ ap (λ o. after_loop m o (lookup k (write_to m k s src).sinks)) alone
        ∙ lookup-write_to m k s src own in
      let found : same k j ≡ true = ap (λ x. same k x) (sym e) ∙ same_refl k in
      rw found (ap (λ x. lookup x (write_each m rest (write_to m k s src)).sinks) (sym e) ∙ here)
  | inr n ↦ rw (same_ne k j n) (
      lookup-write_each m rest (write_to m k s src) j v
      ∙ ap (after_loop m (lookup j rest)) (lookup-write_to_ne m k j s src own n))
]

-- A source whose sinks stand each under its own key once writes a message: every sink with less than 50
-- messages in its channel has it behind them, with the same time, type and payload, and every other
-- sink is gone; there are no new ones.
pub write_data-delivers :
    (src : Source) (m : ExData) (key : GoString)
    → Keyed src.sinks
    → lookup key (write_data src m).sinks
      ≡ delivered
          (record m { av_format = format_avc; origin_protocol = protocol_none })
          (lookup key src.sinks)
unfolding write_data after_loop
write_data-delivers src m key v =
    let copied = record m { av_format = format_avc; origin_protocol = protocol_none } in
    lookup-write_each copied src.sinks src key v
    ∙ (elim (Option-cases (lookup key src.sinks)) [ inl e ↦ rw e refl | inr (s, e) ↦ rw e refl ])
