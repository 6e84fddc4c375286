-- ===== src/Rtmp/Server/Media.antt =====
-- protocol/rtmp/serverHandler.go: audio, video and data messages, and what they hand to the exchange.
use golive.Common.{ℕ, ◌/◌, ◌^◌, zero, suc, Bool, true, false, not, ◌&&◌, Option, none, some}
use golive.Common.{[], ◌∷◌, ◌++◌, drop, bit_and, ◌==◌, if◌then◌else◌}
use golive.Common.Go.{Result, ok, err, panic, stuck, ◌>>=◌, codec_not_same}
use golive.Common.Go.{wrong_sequence_header, codec_not_supported}
use golive.Common.Go.Float.{ℤ, pos, negsuc, to_int}
use golive.Common.Go.Strings.{ascii, same}
use golive.ByteIo.Get.{u8}
use golive.Flv.{ExData, DataType, AvFormat, protocol_rtmp, type_audio, type_audio_config}
use golive.Flv.{type_video_config, type_video_key_frame, type_video_non_key_frame, type_data_amf0}
use golive.Flv.{type_data_amf3, format_aac, format_avc, format_hevc, format_data}
use golive.Amf.{Value}
use golive.Amf.Objects.{find}
use golive.Amf.Read.{Rest, read_value}
unfoldable pub use golive.Amf.Assert.{number_of, string_of, object_of, asserted, is_eof}
use golive.Rtmp.Message.{Message}
use golive.Rtmp.Server.{RtmpHandler, World, Outcome, done, fail, ◌>>>◌, put_data}

abbrev pub equal : ℤ → ℤ → Bool
equal (pos a) (pos b) = a == b
equal (negsuc a) (negsuc b) = a == b
equal _ _ = false

-- `rtmp_codec_h264`, `rtmp_codec_h265`, `rtmp_codec_aac`, and the -1 of a codec that is not known
abbrev pub rtmp_codec_h264 : ℤ
rtmp_codec_h264 = pos 7

abbrev pub rtmp_codec_h265 : ℤ
rtmp_codec_h265 = pos 0x1c

abbrev pub rtmp_codec_aac : ℤ
rtmp_codec_aac = pos 0x0a

abbrev pub unknown_codec : ℤ
unknown_codec = negsuc 0

-- A computation without effect on the handler, whose error the method returns.
abbrev pub trying : {A : Type 0} → RtmpHandler → Result A → (A → Outcome) → Outcome
trying h (ok a) next = next a
trying h (err e) next = fail h e
trying h panic next = panic
trying h stuck next = stuck

abbrev ex_data : Message → DataType → AvFormat → ExData
ex_data m t f = record {
  timestamp = m.timestamp;
  data_type = t;
  av_format = f;
  origin_protocol = protocol_rtmp;
  payload = m.payload;
}

-- The switch of `rtmpMessageToExData`. A payload that is too short makes the index panic.
unfoldable pub classify : Message → Result ExData
classify m =
    if m.message_type == 8
    then (u8 (drop 1 m.payload) >>= λ second.
        ok (ex_data m (if second == 0 then type_audio_config else type_audio) format_aac))
    else if m.message_type == 9
    then (u8 m.payload >>= λ first. u8 (drop 1 m.payload) >>= λ second. ok (
        ex_data m
          (if second == 0
            then type_video_config
            else if bit_and first 0xf0 == 0x10
            then type_video_key_frame
            else type_video_non_key_frame)
          (if bit_and first 0x0f == 7 then format_avc else format_hevc)))
    else if m.message_type == 15
    then ok (ex_data m type_data_amf3 format_data)
    else if m.message_type == 18
    then ok (ex_data m type_data_amf0 format_data)
    else panic

-- `h.putMsg(d)`; a call of a nil function panics.
unfoldable pub put : World → RtmpHandler → ExData → Outcome
put world h d =
    let h' = record h { calls = h.calls ++ (put_data d ∷ []) } in
    if h.put_msg then ok (h', world.on_put h.calls d) else panic

unfoldable pub rtmp_message_to_ex_data : World → RtmpHandler → Message → Outcome
rtmp_message_to_ex_data world h m = classify m >>= λ d. put world h d

unfoldable pub is_known_other : ℤ → ℕ → Bool
is_known_other known codec = not (equal known unknown_codec) && not (equal known (pos codec))

unfoldable pub handle_video_message : World → RtmpHandler → Message → Outcome
handle_video_message world h m = do
  first ← u8 m.payload
  let is_key_frame = first / 2 ^ 4
  let codec_id = bit_and first 0x0f
  let sequence_header = λ (second : ℕ). second == 0 && not (is_key_frame == 1)
  if is_known_other h.video_codec_id codec_id
      then fail h (codec_not_same codec_id)
      else (u8 (drop 1 m.payload) >>= λ second.
          if sequence_header second
          then fail h wrong_sequence_header
          else rtmp_message_to_ex_data world h m)

unfoldable pub handle_audio_message : World → RtmpHandler → Message → Outcome
handle_audio_message world h m = do
  first ← u8 m.payload
  let codec_id = bit_and first 0xf0 / 2 ^ 4
  if is_known_other h.audio_codec_id codec_id
      then fail h (codec_not_same codec_id)
      else rtmp_message_to_ex_data world h m

-- The codec ids of the metadata: a video codec that is no number panics, an audio codec that is no
-- number is passed over.
unfoldable pub video_codec_of : (ℕ → ℤ) → Option Value → ℤ → Result ℤ
video_codec_of beyond none old = ok old
video_codec_of beyond (some v) old = asserted (number_of v) >>= λ f. ok (to_int beyond f)

unfoldable pub audio_codec_of : (ℕ → ℤ) → Option Value → ℤ → ℤ
audio_codec_of beyond none old = old
audio_codec_of beyond (some v) old = elim (number_of v) [ none ↦ old | some f ↦ to_int beyond f ]

unfoldable pub is_video_codec : ℤ → Bool
is_video_codec c =
    if equal c unknown_codec
    then true
    else if equal c rtmp_codec_h264
    then true
    else equal c rtmp_codec_h265

unfoldable pub is_audio_codec : ℤ → Bool
is_audio_codec c = if equal c unknown_codec then true else equal c rtmp_codec_aac

-- The second value of `@setDataFrame`.
unfoldable pub take_av_info : World → RtmpHandler → Value → Outcome
take_av_info world h value = do
  avinfo ← asserted (object_of value)
  v ← video_codec_of world.beyond (find (ascii "videocodecid") avinfo) h.video_codec_id
  let a = audio_codec_of world.beyond (find (ascii "audiocodecid") avinfo) h.audio_codec_id
  let seen = record h { av_info = some avinfo }
  let known = record seen { video_codec_id = v; audio_codec_id = a; has_received_av_meta = true }
  if not (is_video_codec v)
      then fail seen (codec_not_supported v)
      else if not (is_audio_codec a)
      then fail seen (codec_not_supported a)
      else done known

-- `for i := 0; i < count; i++` around `amf.ReadValue`: `io.EOF` ends the loop, any other error is
-- returned. With `last` for what follows the last round.
unfoldable pub for_values :
    World
    → (RtmpHandler → ℕ → Value → Outcome)
    → (RtmpHandler → Outcome)
    → ℕ
    → ℕ
    → RtmpHandler
    → Rest
    → Outcome
for_values world use_value last zero i h r = last h
for_values world use_value last (suc count) i h r = elim (read_value world.amf3_read_value r) [
  | ok (v, r') ↦ use_value h i v >>> λ h'. for_values world use_value last count (suc i) h' r'
  | err e ↦ if is_eof e then done h else fail h e
  | panic ↦ panic
  | stuck ↦ stuck
]

unfoldable pub set_data_frame_value : World → RtmpHandler → ℕ → Value → Outcome
set_data_frame_value world h (suc zero) v = take_av_info world h v
set_data_frame_value world h _ v = done h

unfoldable pub handle_set_data_frame : World → RtmpHandler → Rest → Outcome
handle_set_data_frame world h r = for_values world (set_data_frame_value world) done 2 0 h r

-- Only a message of type 18 that begins with the string `@setDataFrame` is looked at. An error of the
-- first value is dropped.
unfoldable pub data_message_named : World → RtmpHandler → Message → Value → Rest → Outcome
data_message_named world h m v r = elim (string_of v) [
  | none ↦ done h
  | some s ↦
      if same s (ascii "@setDataFrame")
      then (handle_set_data_frame world h r >>> λ h'. rtmp_message_to_ex_data world h' m)
      else done h
]

unfoldable pub handle_data_message : World → RtmpHandler → Message → Outcome
handle_data_message world h m =
    let named : Outcome = elim (read_value world.amf3_read_value m.payload) [
      | ok (v, r) ↦ data_message_named world h m v r
      | err e ↦ done h
      | panic ↦ panic
      | stuck ↦ stuck
    ] in
    if m.message_type == 18 then named else done h
