-- ===== src/Exchange/Work.antt =====
-- exchange/expair.go: what the goroutine of a source does with the messages it receives.
use golive.Common.{
  ℕ, ◌≡◌, refl, Bool-cases, inl, inr, Option, none, some, List, [], ◌∷◌, ◌++◌, length, drop, ltb,
  if◌then◌else◌,
}
use golive.Common.Go.{Result, ok, panic, Error, ◌>>=◌}
use golive.Amf.Assert.{is_eof}
use golive.Common.Go.Strings.{GoString, same, lookup, insert, delete}
use golive.Flv.{ExData, DataType, format_avc, protocol_none, unnamed_type}
use golive.Flv.{type_audio, type_audio_config, type_video, type_video_non_key_frame}
use golive.Flv.{type_video_key_frame, type_video_config, type_data, type_data_amf0, type_data_amf3}
use golive.Exchange.{StreamHandler, Sink, PadMessage, register_sink, data_message}
use golive.Exchange.{unregister_sink, Source, key_in_src_of}

-- `&ExData{DataType: …, Timestamp: 0, Payload: …}`, where there is a payload.
unfoldable pub greeting : DataType → Option (List ℕ) → List ExData
greeting t none = []
greeting t (some payload) =
    record {
      timestamp = 0;
      data_type = t;
      av_format = format_avc;
      origin_protocol = protocol_none;
      payload = payload;
    }
    ∷ []

-- A new sink is first sent the metadata and the decoder configurations there are.
unfoldable pub connect_sink : Source → Sink → Result Source
connect_sink src sink =
    let key = key_in_src_of sink.handler in
    let greetings =
      greeting (unnamed_type 0x12) src.av_meta_data
      ++ (greeting type_video src.video_decoder_configuration_record
          ++ greeting type_audio src.aac_sequence_header) in
    let sink' = record sink { key_in_src = key; msg_chan = sink.msg_chan ++ greetings } in
    elim (lookup key src.sinks) [
      | none ↦ ok (record src { sinks = insert key sink' src.sinks })
      | some old ↦ panic
    ]

unfoldable pub delete_sink : Source → StreamHandler → Source
delete_sink src h =
    let key = key_in_src_of h in
    elim (lookup key src.sinks) [
      | none ↦ src
      | some sink ↦ record src {
        sinks = delete key src.sinks;
        cancelled = src.cancelled ++ (sink.handler ∷ []);
      }
    ]

-- `Sink.writeData` for one entry of the map: the channel of a sink has room for 50 messages, and a
-- sink whose channel is full is cancelled.
unfoldable pub write_to : ExData → GoString → Sink → Source → Source
write_to m k sink src =
    if ltb (length sink.msg_chan) 50
    then record src {
      sinks = insert k (record sink { msg_chan = sink.msg_chan ++ (m ∷ []) }) src.sinks;
    }
    else record src {
      sinks = delete sink.key_in_src src.sinks;
      cancelled = src.cancelled ++ (sink.handler ∷ []);
    }

unfoldable pub write_each : ExData → List (GoString × Sink) → Source → Source
write_each m [] src = src
write_each m ((k, sink) ∷ rest) src = write_each m rest (write_to m k sink src)

-- The message is copied for each sink, without its format and protocol.
unfoldable pub write_data : Source → ExData → Source
write_data src m =
    let to_sink = record m { av_format = format_avc; origin_protocol = protocol_none } in
    write_each to_sink src.sinks src

-- What `amf.ReadValue` returns: a string, another value, or an error.
pub data AmfValue : Type 0 where
  a_string : GoString → AmfValue
  another_value : AmfValue
  no_value : Error → AmfValue

-- "@setDataFrame"
abbrev pub set_data_frame : GoString
set_data_frame = 64 ∷ 115 ∷ 101 ∷ 116 ∷ 68 ∷ 97 ∷ 116 ∷ 97 ∷ 70 ∷ 114 ∷ 97 ∷ 109 ∷ 101 ∷ []

-- `if e != io.EOF { src.err = e }`
unfoldable pub failed_with : Error → Source → Source
failed_with e src = if is_eof e then src else record src { failure = some e }

pub failed_with-sinks : (e : Error) (src : Source) → (failed_with e src).sinks ≡ src.sinks
unfolding failed_with
failed_with-sinks e src = elim (Bool-cases (is_eof e)) [ inl q ↦ rw q refl | inr q ↦ rw q refl ]

-- `m.Payload[16:]` panics where there are fewer bytes.
unfoldable pub after_read : Source → ExData → AmfValue → Result (Source × ExData)
after_read src m (a_string v) =
    if same v set_data_frame
    then (if ltb (length m.payload) 16
        then panic
        else ok (src, record m { payload = drop 16 m.payload }))
    else ok (src, m)
after_read src m another_value = ok (src, m)
after_read src m (no_value e) = ok (failed_with e src, m)

-- The source with the AMF reader that it uses.
module _ (read_value : List ℕ → AmfValue) where
  unfoldable pub handle_data_message : Source → ExData → Result (Source × ExData)
  handle_data_message src m = after_read src m (read_value m.payload)

  unfoldable pub note_message : Source → ExData → DataType → Result (Source × ExData)
  note_message src m type_audio_config = ok (record src { aac_sequence_header = some m.payload }, m)
  note_message src m type_video_config =
      ok (record src { video_decoder_configuration_record = some m.payload }, m)
  note_message src m type_data_amf0 = handle_data_message src m
  note_message src m type_data_amf3 = handle_data_message src m
  note_message src m type_audio = ok (record src { gop_cache = src.gop_cache ++ (m ∷ []) }, m)
  note_message src m type_video = ok (record src { gop_cache = src.gop_cache ++ (m ∷ []) }, m)
  note_message src m type_video_non_key_frame =
      ok (record src { gop_cache = src.gop_cache ++ (m ∷ []) }, m)
  note_message src m type_video_key_frame =
      ok (record src { gop_cache = src.gop_cache ++ (m ∷ []) }, m)
  note_message src m type_data = ok (src, m)
  note_message src m (unnamed_type t) = ok (src, m)

  unfoldable pub handle_rtmp_message : Source → ExData → Result Source
  handle_rtmp_message src m =
      note_message src m m.data_type >>= λ (src', m'). ok (write_data src' m')

  -- One round of the loop of `work`.
  unfoldable pub work_on : Source → PadMessage → Result Source
  work_on src (register_sink sink) = connect_sink src sink
  work_on src (data_message m) = handle_rtmp_message src m
  work_on src (unregister_sink h) = ok (delete_sink src h)
