-- ===== src/Flv.antt =====
-- container/flv/flv.go, protocol/flvlive/tag.go, exchange/exchange.go: FLV tags, and the data that
-- the handler of FLV live streams hands to the exchange for each tag.
pub mod RoundTrip
pub mod Media
pub mod Live
mod Examples
use golive.Common.{ℕ, ◌+◌, ◌*◌, ◌/◌, ◌%◌, ◌^◌, List, [], ◌∷◌, drop, bit_or, bit_and, ◌==◌, ◌&&◌}
use golive.Common.{if◌then◌else◌}
use golive.Common.Go.{Result, ok, err, panic, ◌>>=◌, previous_tag_len, unsupported_codec}
use golive.Common.Go.Reader.{Reader, read_full}
use golive.ByteIo.Get.{u8, u24_be, u32_be}

pub record FlvTag : Type 0 where
  pub tag_type : ℕ
  pub data_size24 : ℕ
  pub timestamp24 : ℕ
  pub timestamp_ext : ℕ
  pub timestamp : ℕ
  pub stream_id : ℕ
  pub payload : List ℕ

-- `uint32(tag.TimestampExt) << 24` and the sum with 11 are of type `uint32`.
unfoldable pub parse_tag : Reader → Result (FlvTag × Reader)
parse_tag r = do
  (bin, r1) ← read_full 11 r
  tag_type ← u8 bin
  data_size24 ← u24_be (drop 1 bin)
  timestamp24 ← u24_be (drop 4 bin)
  timestamp_ext ← u8 (drop 7 bin)
  stream_id ← u24_be (drop 8 bin)
  (payload, r2) ← read_full data_size24 r1
  (len, r3) ← read_full 4 r2
  expect_len ← u32_be len
  let tag : FlvTag = record {
    tag_type = tag_type;
    data_size24 = data_size24;
    timestamp24 = timestamp24;
    timestamp_ext = timestamp_ext;
    timestamp = bit_or timestamp24 (timestamp_ext * 2 ^ 24 % 2 ^ 32);
    stream_id = stream_id;
    payload = payload;
  }
  if expect_len == ((data_size24 + 11) % 2 ^ 32)
      then ok (tag, r3)
      else err (previous_tag_len expect_len data_size24)

-- The constants of `ExData.DataType`; `unnamed_type` is any other `uint8`.
pub data DataType : Type 0 where
  type_audio type_audio_config type_video type_video_non_key_frame type_video_key_frame : DataType
  type_video_config type_data type_data_amf0 type_data_amf3 : DataType
  unnamed_type : ℕ → DataType

pub data AvFormat : Type 0 where
  format_avc format_hevc format_aac format_data : AvFormat

pub data Protocol : Type 0 where
  protocol_none protocol_rtmp protocol_flvlive : Protocol

pub record ExData : Type 0 where
  pub timestamp : ℕ
  pub data_type : DataType
  pub av_format : AvFormat
  pub origin_protocol : Protocol
  pub payload : List ℕ

abbrev from_tag : FlvTag → DataType → AvFormat → ExData
from_tag tag t f = record {
  timestamp = tag.timestamp;
  data_type = t;
  av_format = f;
  origin_protocol = protocol_flvlive;
  payload = tag.payload;
}

-- `tag.Data[0]` and `tag.Data[1]` panic where the data is too short.
unfoldable pub get_audio_ex_data : FlvTag → Result ExData
get_audio_ex_data tag = do
  first ← u8 tag.payload
  let afmt = bit_and first 0xf0 / 2 ^ 4
  if afmt == 10
      then (u8 (drop 1 tag.payload) >>= λ second.
          ok (from_tag tag (if second == 0 then type_audio_config else type_audio) format_aac))
      else err (unsupported_codec afmt)

unfoldable pub get_video_ex_data : FlvTag → Result ExData
get_video_ex_data tag = do
  first ← u8 tag.payload
  let vfmt = bit_and first 0xf0 / 2 ^ 4
  let codec_id = bit_and first 0x0f
  if codec_id == 7
      then (u8 (drop 1 tag.payload) >>= λ second. ok (
          from_tag tag
            (if second == 0
              then type_video_config
              else if second == 1 && vfmt == 1
              then type_video_key_frame
              else type_video_non_key_frame)
            format_avc))
      else err (unsupported_codec codec_id)

unfoldable pub get_script_ex_data : FlvTag → DataType → Result ExData
get_script_ex_data tag data_type = ok (from_tag tag data_type format_data)

-- The switch on the type. Its default reads `d.DataType` of the nil `d`.
unfoldable pub ex_data_of : FlvTag → Result ExData
ex_data_of tag =
    if tag.tag_type == 8
    then get_audio_ex_data tag
    else if tag.tag_type == 9
    then get_video_ex_data tag
    else if tag.tag_type == 18
    then get_script_ex_data tag type_data_amf0
    else if tag.tag_type == 0xf
    then get_script_ex_data tag type_data_amf3
    else panic

unfoldable pub get_next_ex_data : Reader → Result (ExData × Reader)
get_next_ex_data r = do (tag, r1) ← parse_tag r; d ← ex_data_of tag; ok (d, r1)
