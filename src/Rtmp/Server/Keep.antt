-- ===== src/Rtmp/Server/Keep.antt =====
-- Every message keeps the server's handler (protocol/rtmp/serverHandler.go) valid.
use golive.Common.{ℕ, zero, suc, ◌≡◌, refl, Bool, true, false, not}
use golive.Common.{Option, none, some, [], ◌∷◌, ◌++◌, ◌==◌, drop, if◌then◌else◌}
use golive.Common.Go.{Result, Error, ok, err, panic, stuck}
use golive.Common.Go.Strings.{GoString, ascii, same}
use golive.ByteIo.Get.{u8}
use golive.Flv.{ExData}
use golive.Amf.{Value}
use golive.Amf.Objects.{find}
use golive.Amf.Read.{Rest, read_value}
use golive.Rtmp.Message.{Message}
use golive.Rtmp.Server.{RtmpHandler, World, Outcome, done, put_data}
use golive.Rtmp.Server.Media.{classify, put, rtmp_message_to_ex_data, is_known_other}
use golive.Rtmp.Server.Media.{handle_video_message, handle_audio_message, video_codec_of}
use golive.Rtmp.Server.Media.{is_video_codec, is_audio_codec, take_av_info}
use golive.Rtmp.Server.Media.{set_data_frame_value, handle_set_data_frame, string_of}
use golive.Rtmp.Server.Media.{data_message_named, handle_data_message, object_of, asserted}
use golive.Rtmp.Server.Valid.{Protocol, puts, IsValid, Leaves, leaves}
use golive.Rtmp.Server.Valid.{panics, ends, Leaves-then, Leaves-bind, Leaves-if}
use golive.Rtmp.Server.Valid.{Leaves-for_values, IsValid-with}

-- A method that keeps the handler valid.
abbrev pub Keeps : (RtmpHandler → Outcome) → Type 0
Keeps f = (h : RtmpHandler) → IsValid h → Leaves IsValid (f h)

pub done-Keeps : Keeps done
done-Keeps h v = leaves v

pub ex_data-Keeps : (world : World) (m : Message) → Keeps (λ h. rtmp_message_to_ex_data world h m)
unfolding rtmp_message_to_ex_data put
ex_data-Keeps world m h v = Leaves-bind (classify m) _ (λ d. go d h.put_msg v.protocol)
  where
    go :
        (d : ExData) (b : Bool)
        → Protocol h.role b h.calls
        → Leaves IsValid (
            if b
            then ok (
              record h { put_msg = b; calls = h.calls ++ (put_data d ∷ []) },
              world.on_put h.calls d,
            )
            else panic)
    go d true p = leaves (IsValid-with (puts d p) v.video v.audio)
    go d false p = panics

pub video-Keeps : (world : World) (m : Message) → Keeps (λ h. handle_video_message world h m)
unfolding handle_video_message
video-Keeps world m h v = Leaves-bind (u8 m.payload) _ (λ first.
    Leaves-if (is_known_other h.video_codec_id _) (leaves v) (
      Leaves-bind (u8 (drop 1 m.payload)) _
        (λ second. Leaves-if _ (leaves v) (ex_data-Keeps world m h v))))

pub audio-Keeps : (world : World) (m : Message) → Keeps (λ h. handle_audio_message world h m)
unfolding handle_audio_message
audio-Keeps world m h v =
    Leaves-bind (u8 m.payload) _ (λ first.
      Leaves-if (is_known_other h.audio_codec_id _) (leaves v) (ex_data-Keeps world m h v))

-- Both branches of a test, each with the test's result.
Leaves-test :
    {P : RtmpHandler → Type 0} (b : Bool) {x y : Outcome}
    → Leaves P x
    → (b ≡ true → Leaves P y)
    → Leaves P (if not b then x else y)
Leaves-test true p q = q refl
Leaves-test false p q = p

av_info-Keeps : (world : World) (value : Value) → Keeps (λ h. take_av_info world h value)
unfolding take_av_info
av_info-Keeps world value h v = Leaves-bind (asserted (object_of value)) _ (λ avinfo.
    Leaves-bind (video_codec_of world.beyond (find (ascii "videocodecid") avinfo) h.video_codec_id)
      _
      (λ c.
        Leaves-test (is_video_codec c) (leaves (IsValid-with v.protocol v.video v.audio)) (λ video.
          Leaves-test (is_audio_codec _) (leaves (IsValid-with v.protocol v.video v.audio))
            (λ audio. leaves (IsValid-with v.protocol video audio)))))

frame-Keeps :
    (world : World) (i : ℕ) (value : Value) → Keeps (λ h. set_data_frame_value world h i value)
unfolding set_data_frame_value
frame-Keeps world zero value h v = leaves v
frame-Keeps world (suc zero) value h v = av_info-Keeps world value h v
frame-Keeps world (suc (suc i)) value h v = leaves v

set_data_frame-Keeps : (world : World) (r : Rest) → Keeps (λ h. handle_set_data_frame world h r)
unfolding handle_set_data_frame
set_data_frame-Keeps world r h v =
    Leaves-for_values world _ _ (λ h' i value v'. frame-Keeps world i value h' v') done-Keeps 2 0 h
      r v

-- The value that a message begins with, and what is done with it.
pub first_value-Keeps :
    (x : Result (Value × Rest)) (named : Value → Rest → Outcome) (failed : Error → Outcome)
    → ((v : Value) (r : Rest) → Leaves IsValid (named v r))
    → ((e : Error) → Leaves IsValid (failed e))
    → Leaves IsValid
        (elim x [ ok (v, r) ↦ named v r | err e ↦ failed e | panic ↦ panic | stuck ↦ stuck ])
first_value-Keeps (ok (v, r)) named failed g f = g v r
first_value-Keeps (err e) named failed g f = f e
first_value-Keeps panic named failed g f = panics
first_value-Keeps stuck named failed g f = ends

pub string-Keeps :
    (h : RtmpHandler) (x : Option GoString) (use_string : GoString → Outcome)
    → IsValid h
    → ((s : GoString) → Leaves IsValid (use_string s))
    → Leaves IsValid (elim x [ none ↦ done h | some s ↦ use_string s ])
string-Keeps h none use_string v g = leaves v
string-Keeps h (some s) use_string v g = g s

pub data-Keeps : (world : World) (m : Message) → Keeps (λ h. handle_data_message world h m)
unfolding handle_data_message data_message_named
data-Keeps world m h v =
    Leaves-if (m.message_type == 18)
      (first_value-Keeps (read_value world.amf3_read_value m.payload) _ _
        (λ value r. string-Keeps h (string_of value) _ v (λ s.
          Leaves-if (same s (ascii "@setDataFrame"))
            (Leaves-then (handle_set_data_frame world h r) _ (set_data_frame-Keeps world r h v)
              (ex_data-Keeps world m))
            (leaves v)))
        (λ e. leaves v))
      (leaves v)
