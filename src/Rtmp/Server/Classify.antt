-- ===== src/Rtmp/Server/Classify.antt =====
-- The two handlers that make `ExData` of a stream, of RTMP messages (protocol/rtmp/serverHandler.go)
-- and of FLV tags (protocol/flvlive/tag.go), agree.
use golive.Common.{ℕ, zero, suc, ◌/◌, ◌%◌, ◌<◌, ◌≡◌, refl, ◌∙◌, arith, List, ◌∷◌, bit_and, ◌==◌}
use golive.Common.Go.{ok, ◌>>=◌, IsByte}
use golive.Common.Bits.{bit_and_0xf0, bit_and_0x0f}
use golive.ByteIo.Get.{u8}
use golive.Flv.{FlvTag, protocol_flvlive, ex_data_of, get_audio_ex_data, get_video_ex_data}
use golive.Flv.{get_script_ex_data}
use golive.Rtmp.Message.{Message}
use golive.Rtmp.Server.Media.{classify}

-- The types and payloads that both know: AAC, AVC with a packet type below 2, and script data.
pub data IsCommon : ℕ → List ℕ → Type 0 where
  aac : (a b : ℕ) (rest : List ℕ) → IsByte a → a / 16 ≡ 10 → IsCommon 8 (a ∷ b ∷ rest)
  avc : (a b : ℕ) (rest : List ℕ) → IsByte a → a % 16 ≡ 7 → b < 2 → IsCommon 9 (a ∷ b ∷ rest)
  amf0 : (payload : List ℕ) → IsCommon 18 payload
  amf3 : (payload : List ℕ) → IsCommon 15 payload

-- The tag and the message that carry the same.
abbrev pub tag_of : ℕ → ℕ → List ℕ → FlvTag
tag_of t ts payload = record {
  tag_type = t;
  data_size24 = 0;
  timestamp24 = 0;
  timestamp_ext = 0;
  timestamp = ts;
  stream_id = 0;
  payload = payload;
}

abbrev pub message_of : ℕ → ℕ → List ℕ → Message
message_of t ts payload = record {
  message_type = t;
  timestamp = ts;
  stream_id = 0;
  payload = payload;
}

low_nibble : (a : ℕ) → IsByte a → a % 16 ≡ 7 → bit_and a 0x0f ≡ 7
low_nibble a h e = bit_and_0x0f a h ∙ e

-- The two ways to test for a key frame.
key_frame : (a : ℕ) → IsByte a → (bit_and a 0xf0 / 16 == 1) ≡ (bit_and a 0xf0 == 0x10)
key_frame a h = rw (bit_and_0xf0 a h) (ground arith)

-- For AAC audio, AVC video with a packet type of 0 or 1, and script data, `rtmpMessageToExData` makes
-- of a message the data that `GetNextExData` makes of a tag with the same type, timestamp and
-- payload, but for the protocol it names.
pub classify-ex_data_of :
    (t ts : ℕ) (payload : List ℕ)
    → IsCommon t payload
    → ex_data_of (tag_of t ts payload) ≡ (
        classify (message_of t ts payload) >>= λ d.
        ok (record d { origin_protocol = protocol_flvlive }))
unfolding ex_data_of classify get_audio_ex_data get_video_ex_data get_script_ex_data u8
classify-ex_data_of _ ts _ (aac a b rest h e) =
    let f : bit_and a 0xf0 / 16 ≡ 10 = omega (arith, bit_and_0xf0 a h) in rw f refl
classify-ex_data_of _ ts _ (avc a zero rest h e l) = rw (low_nibble a h e) refl
classify-ex_data_of _ ts _ (avc a (suc zero) rest h e l) = rw (low_nibble a h e, key_frame a h) refl
classify-ex_data_of _ ts _ (avc a (suc (suc b)) rest h e l) = absurd (omega arith)
classify-ex_data_of _ ts _ (amf0 payload) = refl
classify-ex_data_of _ ts _ (amf3 payload) = refl
