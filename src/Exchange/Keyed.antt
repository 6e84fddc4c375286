-- ===== src/Exchange/Keyed.antt =====
-- exchange/expair.go: the sinks of a source stand each under its own key.
use golive.Common.{
  ℕ, ◌≡◌, refl, sym, ap, ◌∙◌, none, Option-cases, List, [], ◌∷◌, ◌++◌, length, inl, inr, Bool-cases,
  ltb,
}
use golive.Common.Go.{Result, ok, err, panic, stuck, ◌>>=◌}
use mathlib.Core.Path.{transport}
use golive.Common.Go.Strings.{
  GoString, same, lookup, insert, delete, lookup-delete, lookup-delete_ne, string-cases,
}
use golive.Flv.{
  ExData, DataType, type_audio, type_audio_config, type_video, type_video_non_key_frame,
  type_video_key_frame, type_video_config, type_data, type_data_amf0, type_data_amf3, unnamed_type,
}
use golive.Exchange.{
  Sink, StreamHandler, PadMessage, Source, key_in_src_of, register_sink, data_message,
  unregister_sink,
}
use golive.Exchange.Work.{
  write_to, write_each, write_data, connect_sink, delete_sink, AmfValue, a_string, another_value,
  no_value, set_data_frame, failed_with-sinks, note_message, handle_rtmp_message,
  handle_data_message, after_read, work_on,
}
use golive.Exchange.FanOut.{Sinks, Keyed}

lookup_gone : (k j : GoString) (m : Sinks) → lookup j m ≡ none → lookup j (delete k m) ≡ none
lookup_gone k j m e = elim (string-cases k j) [
  | inl q ↦ ap (λ x. lookup j (delete x m)) q ∙ lookup-delete j m
  | inr n ↦ lookup-delete_ne k j m n ∙ e
]

delete-Keyed : (k : GoString) (m : Sinks) → Keyed m → Keyed (delete k m)
unfolding Keyed delete
delete-Keyed k [] v = tt
delete-Keyed k ((k', s) ∷ m) (own, alone, v) = elim (Bool-cases (same k' k)) [
  | inl e ↦ rw (e, delete) (delete-Keyed k m v)
  | inr e ↦ rw (e, delete) (own, lookup_gone k k' m alone, delete-Keyed k m v)
]

insert-Keyed :
    (k : GoString) (s : Sink) (m : Sinks) → s.key_in_src ≡ k → Keyed m → Keyed (insert k s m)
unfolding Keyed insert
insert-Keyed k s m own v = (own, lookup-delete k m, delete-Keyed k m v)

write_to-Keyed :
    (m : ExData) (k : GoString) (s : Sink) (src : Source)
    → s.key_in_src ≡ k
    → Keyed src.sinks
    → Keyed (write_to m k s src).sinks
unfolding write_to
write_to-Keyed m k s src own v = elim (Bool-cases (ltb (length s.msg_chan) 50)) [
  | inl room ↦
      rw room (insert-Keyed k (record s { msg_chan = s.msg_chan ++ (m ∷ []) }) src.sinks own v)
  | inr full ↦ rw full (delete-Keyed s.key_in_src src.sinks v)
]

write_each-Keyed :
    (m : ExData) (todo : Sinks) (src : Source)
    → Keyed todo
    → Keyed src.sinks
    → Keyed (write_each m todo src).sinks
unfolding write_each Keyed
write_each-Keyed m [] src vt v = v
write_each-Keyed m ((k, s) ∷ rest) src (own, alone, vt) v =
    write_each-Keyed m rest (write_to m k s src) vt (write_to-Keyed m k s src own v)

-- The sinks after a round that does not panic.
pub data KeyedAfter : Result Source → Type 0 where
  goes_on : {src : Source} → Keyed src.sinks → KeyedAfter (ok src)
  panics : KeyedAfter panic

connect_sink-Keyed : (src : Source) (s : Sink) → Keyed src.sinks → KeyedAfter (connect_sink src s)
unfolding connect_sink
connect_sink-Keyed src s v = elim (Option-cases (lookup (key_in_src_of s.handler) src.sinks)) [
  | inl e ↦
      rw (e, connect_sink) (goes_on (insert-Keyed (key_in_src_of s.handler) _ src.sinks refl v))
  | inr (old, e) ↦ rw (e, connect_sink) panics
]

delete_sink-Keyed :
    (src : Source) (h : StreamHandler) → Keyed src.sinks → Keyed (delete_sink src h).sinks
unfolding delete_sink
delete_sink-Keyed src h v = elim (Option-cases (lookup (key_in_src_of h) src.sinks)) [
  | inl e ↦ rw (e, delete_sink) v
  | inr (s, e) ↦ rw (e, delete_sink) (delete-Keyed (key_in_src_of h) src.sinks v)
]

-- What is noted of a message before it is written leaves the sinks as they are.
data Notes (src : Source) : Result (Source × ExData) → Type 0 where
  noted : {src' : Source} {m' : ExData} → src'.sinks ≡ src.sinks → Notes src (ok (src', m'))
  breaks : Notes src panic

module _ (read_value : List ℕ → AmfValue) where
  after_read-Notes : (src : Source) (m : ExData) (a : AmfValue) → Notes src (after_read src m a)
  unfolding after_read
  after_read-Notes src m (a_string w) = elim (Bool-cases (same w set_data_frame)) [
    | inr e ↦ rw e (noted refl)
    | inl e ↦ elim (Bool-cases (ltb (length m.payload) 16)) [
      | inl short ↦ rw (e, short) breaks
      | inr long ↦ rw (e, long) (noted refl)
    ]
  ]
  after_read-Notes src m another_value = noted refl
  after_read-Notes src m (no_value e) = noted (failed_with-sinks e src)

  note_message-Notes :
      (src : Source) (m : ExData) (t : DataType) → Notes src (note_message read_value src m t)
  unfolding note_message handle_data_message
  note_message-Notes src m type_audio_config = noted refl
  note_message-Notes src m type_video_config = noted refl
  note_message-Notes src m type_data_amf0 = after_read-Notes src m (read_value m.payload)
  note_message-Notes src m type_data_amf3 = after_read-Notes src m (read_value m.payload)
  note_message-Notes src m type_audio = noted refl
  note_message-Notes src m type_video = noted refl
  note_message-Notes src m type_video_non_key_frame = noted refl
  note_message-Notes src m type_video_key_frame = noted refl
  note_message-Notes src m type_data = noted refl
  note_message-Notes src m (unnamed_type t) = noted refl

  write_noted :
      (src : Source) (x : Result (Source × ExData))
      → Keyed src.sinks
      → Notes src x
      → KeyedAfter (x >>= λ (src', m'). ok (write_data src' m'))
  unfolding write_data
  write_noted src (ok (src', m')) v (noted e) =
      let v' : Keyed src'.sinks = transport (ap Keyed (sym e)) v in
      goes_on (write_each-Keyed _ src'.sinks src' v' v')
  write_noted src panic v breaks = panics
  write_noted src (err e) v n = elim n [ ]
  write_noted src stuck v n = elim n [ ]

  -- Whatever message a source receives, and whatever is read from it: if its sinks stand each under its
  -- own key once, and the round does not panic, then so they stand after it.
  pub work_on-Keyed :
      (src : Source) (p : PadMessage) → Keyed src.sinks → KeyedAfter (work_on read_value src p)
  unfolding work_on handle_rtmp_message
  work_on-Keyed src (register_sink s) v = connect_sink-Keyed src s v
  work_on-Keyed src (data_message m) v =
      write_noted src (note_message read_value src m m.data_type) v
        (note_message-Notes src m m.data_type)
  work_on-Keyed src (unregister_sink h) v = goes_on (delete_sink-Keyed src h v)
