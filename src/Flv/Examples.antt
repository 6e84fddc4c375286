-- ===== src/Flv/Examples.antt =====
-- The theorems on FLV tags at concrete tags.
use golive.Common.{refl, arith, [], ◌∷◌}
use golive.Common.Go.Reader.{Reader, Reads}
use golive.Flv.{FlvTag, parse_tag, get_next_ex_data, type_video_non_key_frame, format_avc}
use golive.Flv.{protocol_flvlive}
use golive.Flv.RoundTrip.{IsTag, parse_tag-Reads}
use golive.Flv.Media.{avc_end, get_next_ex_data-Reads}

-- A video tag of the end of a sequence, with the frame type of key frames.
abbrev last_tag : FlvTag
last_tag = record {
  tag_type = 9;
  data_size24 = 3;
  timestamp24 = 5;
  timestamp_ext = 1;
  timestamp = 16777221;
  stream_id = 0;
  payload = 23 ∷ 2 ∷ 0 ∷ [];
}

last_tag-IsTag : IsTag last_tag
last_tag-IsTag = record {
  size_24 = omega arith;
  size_eq = refl;
  low_24 = omega arith;
  ext_byte = omega arith;
  time_eq = refl;
  stream_24 = omega arith;
}

abbrev stream : Reader
stream =
    (9 ∷ 0 ∷ 0 ∷ [])
    ∷ (3 ∷ 0 ∷ 0 ∷ 5 ∷ 1 ∷ 0 ∷ 0 ∷ 0 ∷ 23 ∷ [])
    ∷ (2 ∷ 0 ∷ 0 ∷ 0 ∷ 0 ∷ 14 ∷ 9 ∷ [])
    ∷ []

parse_tag-Reads_example : Reads parse_tag stream last_tag (9 ∷ [])
parse_tag-Reads_example = parse_tag-Reads last_tag (9 ∷ []) stream last_tag-IsTag refl

get_next_ex_data-Reads_example :
    Reads get_next_ex_data stream
      (record {
        timestamp = 16777221;
        data_type = type_video_non_key_frame;
        av_format = format_avc;
        origin_protocol = protocol_flvlive;
        payload = 23 ∷ 2 ∷ 0 ∷ [];
      })
      (9 ∷ [])
get_next_ex_data-Reads_example =
    get_next_ex_data-Reads last_tag (9 ∷ []) stream type_video_non_key_frame format_avc
      last_tag-IsTag (avc_end 1 2 (0 ∷ []) (omega arith) (omega arith)) refl
