-- ===== src/Exchange/Examples.antt =====
-- The theorems on the exchange at concrete sources and sinks.
use golive.Common.{◌≡◌, refl, none, some, [], ◌∷◌, replicate}
use golive.Common.Go.{ok}
use golive.Common.Go.Strings.{GoString, same, lookup, insert, delete}
use golive.Exchange.{Sink, Source, register_sink, data_message, key_in_src_of}
use golive.Exchange.FanOut.{Keyed, delivered, write_data-delivers}
use golive.Exchange.Keyed.{KeyedAfter, work_on-Keyed}
use golive.Flv.{ExData, type_video_key_frame, format_avc, protocol_none}
use golive.Exchange.Work.{connect_sink, delete_sink, write_data, work_on, another_value}
use golive.Exchange.Pool.{ConnPool, pair_pad, cmd_register_sink, send, handle_register_sink}
use golive.Exchange.Pool.{handle_register_source, add_observer}
use golive.Exchange.Pairing.{IsPaired, pair_pad-IsPaired}
use golive.Exchange.Refused.{refused_unregisters}
use golive.Exchange.Pool.{cmd_unregister_source}
use golive.Common.{false}
use golive.Exchange.Order.{keyed, sink_of, register_order, connect-delete_sink}

abbrev live : GoString
live = 108 ∷ 105 ∷ 118 ∷ 101 ∷ []

abbrev frame : ExData
frame = record {
  timestamp = 40;
  data_type = type_video_key_frame;
  av_format = format_avc;
  origin_protocol = protocol_none;
  payload = 23 ∷ 1 ∷ [];
}

abbrev camera : Source
camera = record {
  handler = record { app_stream_key = live; pointer = 1 ∷ [] };
  src_chan = [];
  sinks = [];
  failure = none;
  gop_cache = [];
  video_decoder_configuration_record = some (23 ∷ 0 ∷ []);
  aac_sequence_header = none;
  av_meta_data = none;
  cancelled = [];
}

abbrev viewer : Sink
viewer = sink_of camera (2 ∷ []) [] []

abbrev empty_pool : ConnPool
empty_pool = record { receivers = []; waiting_senders = [] }

empty_pool-IsPaired : IsPaired empty_pool
unfolding lookup
empty_pool-IsPaired = record { apart = λ k src e. refl; someone = λ k w e. absurd (cc) }

abbrev viewer_waits : ConnPool
viewer_waits = record {
  receivers = [];
  waiting_senders = (live, (key_in_src_of viewer.handler, keyed viewer) ∷ []) ∷ [];
}

pair_pad-IsPaired_example : IsPaired viewer_waits
unfolding pair_pad handle_register_sink add_observer lookup insert delete
pair_pad-IsPaired_example =
    pair_pad-IsPaired empty_pool viewer_waits (cmd_register_sink viewer) empty_pool-IsPaired refl

register_order_example :
    (early : ConnPool) × (late : ConnPool) × (handle_register_sink empty_pool viewer ≡ ok early)
    × (handle_register_sink (handle_register_source empty_pool camera).1 viewer ≡ ok late)
    × (lookup live (handle_register_source early camera).1.receivers
        ≡ some (send camera (register_sink (keyed viewer) ∷ [])))
    × (lookup live late.receivers ≡ some (send camera (register_sink viewer ∷ [])))
    × ((s : Source) → connect_sink s (keyed viewer) ≡ connect_sink s viewer)
unfolding lookup
register_order_example = register_order empty_pool camera (2 ∷ []) [] [] refl refl

connect-delete_sink_example :
    (src : Source) × (connect_sink camera viewer ≡ ok src)
    × (lookup live src.sinks ≡ lookup live camera.sinks)
    × (lookup (key_in_src_of viewer.handler) (delete_sink src viewer.handler).sinks ≡ none)
    × (lookup live (delete_sink src viewer.handler).sinks ≡ lookup live camera.sinks)
    × ((delete_sink src viewer.handler).cancelled ≡ viewer.handler ∷ [])
unfolding lookup
connect-delete_sink_example = connect-delete_sink camera viewer live refl (λ e. absurd (cc))

abbrev published : ConnPool
published = record { receivers = (live, camera) ∷ []; waiting_senders = [] }

abbrev intruder : Source
intruder = record camera { handler = record { app_stream_key = live; pointer = 9 ∷ [] } }

refused_unregisters_example :
    (handle_register_source published intruder ≡ (false, published))
    × ((p' : ConnPool) × (pair_pad published (cmd_unregister_source intruder.handler) ≡ ok p')
        × (lookup live p'.receivers ≡ none))
unfolding lookup golive.Common.Go.Strings.same
refused_unregisters_example = refused_unregisters published camera intruder refl

-- A sink with room, and one whose channel is full.
abbrev watched : Source
watched = record camera {
  sinks =
      (1 ∷ [], record viewer { key_in_src = 1 ∷ [] })
      ∷ (2 ∷ [], record viewer { key_in_src = 2 ∷ []; msg_chan = replicate 50 frame })
      ∷ [];
}

watched-Keyed : Keyed watched.sinks
unfolding Keyed lookup same
watched-Keyed = (refl, refl, (refl, refl, tt))

write_data-delivers_example :
    lookup (1 ∷ []) (write_data watched frame).sinks
    ≡ delivered
        (record frame { av_format = format_avc; origin_protocol = protocol_none })
        (lookup (1 ∷ []) watched.sinks)
write_data-delivers_example = write_data-delivers watched frame (1 ∷ []) watched-Keyed

work_on-Keyed_example : KeyedAfter (work_on (λ b. another_value) watched (data_message frame))
work_on-Keyed_example =
    work_on-Keyed (λ b. another_value) watched (data_message frame) watched-Keyed
