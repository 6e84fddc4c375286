-- ===== src/Rtmp/Server/Valid.antt =====
-- What holds of the server's handler (protocol/rtmp/serverHandler.go) between two messages.
use golive.Common.{ℕ, zero, suc, ◌≡◌, Bool, true, false}
use golive.Common.{Option, none, some, List, [], ◌∷◌, ◌++◌, if◌then◌else◌}
use golive.Common.Go.{Result, Error, ok, err, panic, stuck, ◌>>=◌}
use golive.Common.Go.Strings.{GoString}
use golive.Flv.{ExData}
use golive.Amf.{Value}
use golive.Amf.Read.{Rest, read_value}
use golive.Rtmp.Message.{Message}
use golive.Rtmp.Packer.{ChunkPacker, message_to_chunk, serializer_chunk}
use golive.Rtmp.Server.{RtmpHandler, World, Outcome, done, fail, ◌>>>◌, Role, no_role, source, sink}
use golive.Rtmp.Server.{PadCall, source_determined, sink_determined, put_data, serialize, write_out}
use golive.Rtmp.Server.{serializing}
pub use golive.Rtmp.Outcome.{
  Leaves, leaves, errs, panics, ends, Leaves-then, Leaves-bind, Leaves-if,
}
use golive.Rtmp.Server.Media.{for_values, is_video_codec, is_audio_codec, is_eof}

-- The calls of the pad that a handler makes before it stops, with the role it then has and whether it
-- has a function to put data with: data is put only after a source was determined.
pub data Protocol : Role → Bool → List PadCall → Type 0 where
  nothing : Protocol no_role false []
  as_source :
      {r : Role} {b : Bool} {cs : List PadCall} (key : GoString)
      → Protocol r b cs
      → Protocol source true (cs ++ (source_determined key ∷ []))
  as_sink :
      {r : Role} {b : Bool} {cs : List PadCall} (key : GoString)
      → Protocol r b cs
      → Protocol sink b (cs ++ (sink_determined key ∷ []))
  puts :
      {r : Role} {cs : List PadCall} (d : ExData)
      → Protocol r true cs
      → Protocol r true (cs ++ (put_data d ∷ []))

-- The calls obey the protocol, and the codecs are unknown or supported ones.
pub record IsValid (h : RtmpHandler) : Type 0 where
  pub protocol : Protocol h.role h.put_msg h.calls
  pub video : is_video_codec h.video_codec_id ≡ true
  pub audio : is_audio_codec h.audio_codec_id ≡ true

pub IsValid-packer :
    (h : RtmpHandler) (s : ChunkPacker) → IsValid h → IsValid (record h { chunk_packer = s })
IsValid-packer h s v = record { protocol = v.protocol; video = v.video; audio = v.audio }

pub IsValid-written :
    (h : RtmpHandler) (w : List ℕ) → IsValid h → IsValid (record h { written = w })
IsValid-written h w v = record { protocol = v.protocol; video = v.video; audio = v.audio }

module _ {P : RtmpHandler → Type 0} where
  -- The loop over the values of a message.
  pub Leaves-for_values :
      (world : World) (use_value : RtmpHandler → ℕ → Value → Outcome) (last : RtmpHandler → Outcome)
      → ((h : RtmpHandler) (i : ℕ) (v : Value) → P h → Leaves P (use_value h i v))
      → ((h : RtmpHandler) → P h → Leaves P (last h))
      → (count i : ℕ) (h : RtmpHandler) (r : Rest) → P h
      → Leaves P (for_values world use_value last count i h r)
  unfolding for_values
  Leaves-for_values world use_value last g l zero i h r p = l h p
  Leaves-for_values world use_value last g l (suc count) i h r p =
      round (λ h' r' p'. Leaves-for_values world use_value last g l count (suc i) h' r' p')
        (read_value world.amf3_read_value r)
    where
      round :
          ((h' : RtmpHandler) (r' : Rest)
            → P h'
            → Leaves P (for_values world use_value last count (suc i) h' r'))
          → (x : Result (Value × Rest))
          → Leaves P (elim x [
            | ok (v, r') ↦
                use_value h i v >>> λ h'. for_values world use_value last count (suc i) h' r'
            | err e ↦ if is_eof e then done h else fail h e
            | panic ↦ panic
            | stuck ↦ stuck
          ])
      round more (ok (v, r')) = Leaves-then (use_value h i v) _ (g h i v p) (λ h' p'. more h' r' p')
      round more (err e) = Leaves-if (is_eof e) (leaves p) (leaves p)
      round more panic = panics
      round more stuck = ends

-- Writing to the connection and serializing keep the handler valid.
pub Leaves-write_out :
    (world : World) (h : RtmpHandler) (w : List ℕ)
    → IsValid h
    → Leaves IsValid (write_out world h w)
unfolding write_out
Leaves-write_out world h w p = go (world.on_write w)
  where
    go :
        (x : Option Error)
        → Leaves IsValid
            (elim x [ none ↦ done (record h { written = h.written ++ w }) | some e ↦ fail h e ])
    go none = leaves (IsValid-written h _ p)
    go (some e) = leaves p

-- The only change to the handler is that of its packer.
data Repacks (h : RtmpHandler) : Result (RtmpHandler × List ℕ) → Type 0 where
  repacks : (s : ChunkPacker) (w : List ℕ) → Repacks h (ok (record h { chunk_packer = s }, w))
  fails : (e : Error) → Repacks h (err e)
  breaks : Repacks h panic
  runs_out : Repacks h stuck

module _ {A : Type 0} {h : RtmpHandler} where
  Repacks-bind :
      (x : Result A) (f : A → Result (RtmpHandler × List ℕ))
      → ((a : A) → Repacks h (f a))
      → Repacks h (x >>= f)
  Repacks-bind (ok a) f g = g a
  Repacks-bind (err e) f g = fails e
  Repacks-bind panic f g = breaks
  Repacks-bind stuck f g = runs_out

serialize-Repacks :
    (h : RtmpHandler) (m : Result Message) (w : List ℕ) → Repacks h (serialize h m w)
unfolding serialize
serialize-Repacks h m w = Repacks-bind m _ (λ m'.
    Repacks-bind (message_to_chunk h.chunk_packer m') _ (λ chunks.
      Repacks-bind (serializer_chunk h.chunk_packer chunks w) _ (λ (s, w'). repacks s w')))

pub Leaves-serializing :
    (h : RtmpHandler) (m : Result Message) (w : List ℕ) (next : RtmpHandler → List ℕ → Outcome)
    → IsValid h
    → ((h' : RtmpHandler) (w' : List ℕ) → IsValid h' → Leaves IsValid (next h' w'))
    → Leaves IsValid (serializing h m w next)
unfolding serializing
Leaves-serializing h m w next p g = go (serialize h m w) (serialize-Repacks h m w)
  where
    go :
        (x : Result (RtmpHandler × List ℕ))
        → Repacks h x
        → Leaves IsValid
            (elim x [ ok (h', w') ↦ next h' w' | err e ↦ fail h e | panic ↦ panic | stuck ↦ stuck ])
    go (ok _) (repacks s w') = g _ w' (IsValid-packer h s p)
    go (err _) (fails e) = leaves p
    go panic breaks = panics
    go stuck runs_out = ends

-- A change of the fields that validity does not speak of, or of the calls.
pub IsValid-with :
    {h : RtmpHandler}
    → Protocol h.role h.put_msg h.calls
    → is_video_codec h.video_codec_id ≡ true
    → is_audio_codec h.audio_codec_id ≡ true
    → IsValid h
IsValid-with p v a = record { protocol = p; video = v; audio = a }
