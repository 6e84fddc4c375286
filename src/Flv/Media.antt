-- ===== src/Flv/Media.antt =====
-- What `GetNextExData` makes of a tag.
use golive.Common.{ℕ, ◌+◌, ◌*◌, ◌/◌, ◌^◌, ◌<◌, ◌≡◌, ◌≢◌, refl, arith, List, ◌∷◌, ◌++◌, bit_and}
use golive.Common.Bits.{bit_and_0x0f, bit_and_0xf0}
use golive.Common.Go.{ok, panic}
use golive.Common.Go.Reader.{Reader, bytes, Reads}
use golive.ByteIo.Get.{u8}
use golive.Flv.{FlvTag, ExData, DataType, AvFormat, ex_data_of, get_next_ex_data}
use golive.Flv.{get_audio_ex_data, get_video_ex_data, get_script_ex_data}
use golive.Flv.{type_audio, type_audio_config, type_video_non_key_frame, type_video_key_frame}
use golive.Flv.{
  type_video_config, type_data_amf0, type_data_amf3, format_aac, format_avc, format_data,
}
use golive.Flv.{protocol_flvlive}
use golive.Flv.RoundTrip.{IsTag, tag_bytes, parse_tag-Reads}

-- The data of a tag, by the first two bytes of its payload as the FLV format defines them: sound
-- format and packet type of audio, frame type, codec and packet type of video.
pub data Carries : ℕ → List ℕ → DataType → AvFormat → Type 0 where
  aac_header :
      (low : ℕ) (x : List ℕ)
      → low < 16
      → Carries 8 ((10 * 16 + low) ∷ 0 ∷ x) type_audio_config format_aac
  aac_frame :
      (low t : ℕ) (x : List ℕ)
      → low < 16
      → 0 < t
      → Carries 8 ((10 * 16 + low) ∷ t ∷ x) type_audio format_aac
  avc_header :
      (frame : ℕ) (x : List ℕ)
      → frame < 16
      → Carries 9 ((frame * 16 + 7) ∷ 0 ∷ x) type_video_config format_avc
  avc_key : (x : List ℕ) → Carries 9 ((1 * 16 + 7) ∷ 1 ∷ x) type_video_key_frame format_avc
  avc_inter :
      (frame t : ℕ) (x : List ℕ)
      → frame < 16
      → frame ≢ 1
      → 0 < t
      → Carries 9 ((frame * 16 + 7) ∷ t ∷ x) type_video_non_key_frame format_avc
  -- The end of a sequence and what else is no frame, also with the frame type of key frames.
  avc_end :
      (frame t : ℕ) (x : List ℕ)
      → frame < 16
      → 1 < t
      → Carries 9 ((frame * 16 + 7) ∷ t ∷ x) type_video_non_key_frame format_avc
  script_amf0 : (x : List ℕ) → Carries 18 x type_data_amf0 format_data
  script_amf3 : (x : List ℕ) → Carries 15 x type_data_amf3 format_data

high : (b low : ℕ) → b < 16 → low < 16 → bit_and (b * 16 + low) 0xf0 / 2 ^ 4 ≡ b
high b low hb hl = omega (arith, bit_and_0xf0 (b * 16 + low) (omega arith))

low_of : (b low : ℕ) → b < 16 → low < 16 → bit_and (b * 16 + low) 0x0f ≡ low
low_of b low hb hl = omega (arith, bit_and_0x0f (b * 16 + low) (omega arith))

abbrev carried : FlvTag → DataType → AvFormat → ExData
carried tag t f = record {
  timestamp = tag.timestamp;
  data_type = t;
  av_format = f;
  origin_protocol = protocol_flvlive;
  payload = tag.payload;
}

module _ (tag : FlvTag) where
  classified :
      (t : ℕ) (x : List ℕ) (d : DataType) (f : AvFormat)
      → Carries t x d f
      → tag.tag_type ≡ t
      → tag.payload ≡ x
      → ex_data_of tag ≡ ok (carried tag d f)
  unfolding ex_data_of get_audio_ex_data get_video_ex_data get_script_ex_data u8
  classified t x d f (aac_header low y hl) et ep =
      rw (et, ep) (rw (high 10 low (omega arith) hl) refl)
  classified t x d f (aac_frame low k y hl hk) et ep =
      rw (et, ep) (rw (high 10 low (omega arith) hl) (ground arith))
  classified t x d f (avc_header frame y hf) et ep =
      rw (et, ep) (rw (low_of frame 7 hf (omega arith)) refl)
  classified t x d f (avc_key y) et ep = rw (et, ep) refl
  classified t x d f (avc_inter frame k y hf n hk) et ep =
      rw (et, ep)
        (rw (low_of frame 7 hf (omega arith), high frame 7 hf (omega arith)) (ground arith))
  classified t x d f (avc_end frame k y hf hk) et ep =
      rw (et, ep)
        (rw (low_of frame 7 hf (omega arith), high frame 7 hf (omega arith)) (ground arith))
  classified t x d f (script_amf0 y) et ep = rw (et, ep) refl
  classified t x d f (script_amf3 y) et ep = rw (et, ep) refl

-- From a stream that begins with a tag in its FLV layout, in every segmentation, `GetNextExData`
-- returns the data type and format that the first two bytes of the payload stand for, with the
-- 32-bit timestamp of the tag and its whole payload, and leaves what follows the tag. The tag holds
-- AAC audio or AVC video of two bytes or more, of any frame and packet type, or script data; AVC
-- video is a configuration for packet type 0, a key frame for packet type 1 and frame type 1, and
-- a frame that is none for every other pair.
pub get_next_ex_data-Reads :
    (tag : FlvTag) (rest : List ℕ) (r : Reader) (d : DataType) (f : AvFormat)
    → IsTag tag
    → Carries tag.tag_type tag.payload d f
    → bytes r ≡ tag_bytes tag ++ rest
    → Reads get_next_ex_data r (carried tag d f) rest
unfolding get_next_ex_data
get_next_ex_data-Reads tag rest r d f h c e =
    let (r1, p, q) = parse_tag-Reads tag rest r h e in
    (r1, rw (p, classified tag tag.tag_type tag.payload d f c refl refl), q)

unknown_type :
    (tag : FlvTag)
    → tag.tag_type ≢ 8
    → tag.tag_type ≢ 9
    → tag.tag_type ≢ 18
    → tag.tag_type ≢ 15
    → ex_data_of tag ≡ panic
unfolding ex_data_of
unknown_type tag a b c d = ground arith

-- A tag of any other type than 8, 9, 15 and 18 at the front of the stream makes `GetNextExData`
-- panic, where it means to return an error.
pub get_next_ex_data_panics :
    (tag : FlvTag) (rest : List ℕ) (r : Reader)
    → IsTag tag
    → tag.tag_type ≢ 8
    → tag.tag_type ≢ 9
    → tag.tag_type ≢ 18
    → tag.tag_type ≢ 15
    → bytes r ≡ tag_bytes tag ++ rest
    → get_next_ex_data r ≡ panic
unfolding get_next_ex_data
get_next_ex_data_panics tag rest r h a b c d e =
    let (r1, p, q) = parse_tag-Reads tag rest r h e in rw (p, unknown_type tag a b c d)
