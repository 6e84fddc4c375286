-- ===== src/Rtmp/Transfer/Deliver.antt =====
-- Every message of the media and command types arrives.
use golive.Common.{ap, sym, ◌++◌, ℕ, ◌+◌, ◌-◌, ◌%◌, ◌^◌, ◌≤◌, ◌≡◌, ◌⊎◌, inl, inr, refl, ◌∙◌}
use golive.Common.{arith, true, false, not, ◌&&◌, ◌||◌, some, none, Option, length, List}
use golive.Common.{◌==◌, Bool-cases}
use golive.Rtmp.Chunk.{ChunkMessageHeader, ChunkStream, stream_or_new, is_known}
use golive.Rtmp.Message.{Message, MessageStream}
use golive.Rtmp.Packer.{ChunkPacker, write_message, csid_of}
use golive.Rtmp.Unpacker.{ChunkUnpacker}
use golive.Rtmp.Transfer.Chunks.{Ready}
use golive.Rtmp.Transfer.Whole.{
  IsValid, Travels, Arrives, arrives, format_of, written, written_bytes, Delivered,
}
use golive.Common.Go.{ok}
use golive.Common.Go.Reader.{Reader, bytes, first_length}
use golive.Rtmp.Transfer.Formats.{Agree, Travels-type0}
use golive.Rtmp.Transfer.Known.{Travels-type1, Travels-type2, Travels-type3, sum-eq}
use native.Mathlib.Decide.{ℕ_discrete}
use golive.Rtmp.Transfer.Synced.{Synced, StreamSync, IsAtRest, IsKnown, AgreeHeaders, Synced-after}
use golive.Rtmp.Transfer.Arrival.{
  IsPlain, InOrder, arrival_time, repeats, in_time, repeats→eqs, in_time→eqs, arrival_fresh,
  arrival_other, arrival_changed, arrival_moved, arrival_repeated,
}

at_rest→Ready : (o : Option MessageStream) → IsAtRest o → Ready 0 o
at_rest→Ready none h = refl
at_rest→Ready (some ms) h = h

known→Ready : (o : Option MessageStream) → IsKnown o → IsAtRest o → (fmt : ℕ) → Ready fmt o
known→Ready none k h fmt = elim k [ ]
known→Ready (some ms) k h fmt = h

module _ (p : ChunkPacker) (u : ChunkUnpacker) (m : Message) (valid : IsValid m) (plain : IsPlain m)
    (synced : Synced p u) where
  -- However the first chunk travels, the two sides are in step afterwards.
  in_step :
      (fmt : ℕ) (head : List ℕ) (sent got : ChunkStream) (hdr : ChunkMessageHeader)
      → Travels p u m fmt head sent got hdr
      → AgreeHeaders sent.header got.header
      → Arrives p u m hdr.timestamp Synced
  in_step fmt head sent got hdr t agree =
      let (q, w, wrote, read) =
        arrives p u m valid synced.size synced.positive fmt head sent got hdr t in
      (
        q,
        w,
        wrote,
        λ more r stream first.
            let (v, r', run, rest, (s, idle, frame)) = read more r stream first in
            (
              v,
              r',
              run,
              rest,
              Synced-after p q u v (csid_of m.message_type) sent.header got.header synced s idle
                  frame agree,
            ),
      )

  fresh :
      (s g : ChunkStream)
      → stream_or_new (csid_of m.message_type) (p.send_streams (csid_of m.message_type)) ≡ s
      → stream_or_new (csid_of m.message_type) (u.streams (csid_of m.message_type)) ≡ g
      → (not (s.header.message_stream_id == m.stream_id)
          || not (is_known (p.send_streams (csid_of m.message_type))))
        ≡ true
      → g.remain ≡ 0
      → Arrives p u m 0 Synced
  fresh s g es eg new drained =
      in_step 0 _ _ _ _
        (Travels-type0 p u m valid plain s g es eg new drained
          (at_rest→Ready _ (synced.messages m.stream_id)))
        (record {
          length_eq = refl;
          type_eq = refl;
          stream_eq = refl;
          behind = omega arith;
          short_time = valid.short_time;
        })

  module _ (s g : ChunkStream) (es : p.send_streams (csid_of m.message_type) ≡ some s)
      (eg : u.streams (csid_of m.message_type) ≡ some g) (agree : Agree s g)
      (known : IsKnown (u.message_collector.streams g.header.message_stream_id))
      (order : s.header.timestamp ≤ m.timestamp)
      (same_id : s.header.message_stream_id ≡ m.stream_id) where
    ready : (fmt : ℕ) → Ready fmt (u.message_collector.streams m.stream_id)
    ready =
        known→Ready (u.message_collector.streams m.stream_id)
          (rw (agree.stream_eq ∙ same_id) at known) (synced.messages m.stream_id)

    changed :
        ((s.header.message_length == (length m.payload % 2 ^ 32))
            && (s.header.message_type_id == m.message_type))
          ≡ false
        → Arrives p u m (g.header.timestamp + (m.timestamp - s.header.timestamp)) Synced
    changed differs =
        let total = sum-eq p u m valid plain s g es eg agree same_id order ready in
        rw (← total) (
          in_step 1 _ _ _ _
            (Travels-type1 p u m valid plain s g es eg agree same_id order ready differs)
            (record {
              length_eq = refl;
              type_eq = refl;
              stream_eq = agree.stream_eq;
              behind = omega (arith, total, agree.behind);
              short_time = valid.short_time;
            }))

    module _ (same_length : s.header.message_length ≡ length m.payload % 2 ^ 32)
        (same_type : s.header.message_type_id ≡ m.message_type) where
      moved :
          (s.header.timestamp == m.timestamp
              || s.header.time_delta == ((m.timestamp + 2 ^ 32 - s.header.timestamp) % 2 ^ 32))
            ≡ false
          → Arrives p u m (g.header.timestamp + (m.timestamp - s.header.timestamp)) Synced
      moved differs =
          let total = sum-eq p u m valid plain s g es eg agree same_id order ready in
          rw (← total) (
            in_step 2 _ _ _ _
              (Travels-type2 p u m valid plain s g es eg agree same_id order ready same_length
                same_type differs)
              (record {
                length_eq = agree.length_eq;
                type_eq = agree.type_eq;
                stream_eq = agree.stream_eq;
                behind = omega (arith, total, agree.behind);
                short_time = valid.short_time;
              }))

      repeated :
          (s.header.timestamp ≡ m.timestamp)
            ⊎ (s.header.time_delta ≡ (m.timestamp + 2 ^ 32 - s.header.timestamp) % 2 ^ 32)
          → Arrives p u m g.header.timestamp Synced
      repeated time =
          in_step 3 _ _ _ _
            (Travels-type3 p u m valid plain s g es eg agree same_id order ready same_length
              same_type time)
            (record {
              length_eq = agree.length_eq;
              type_eq = agree.type_eq;
              stream_eq = agree.stream_eq;
              behind = agree.behind;
              short_time = agree.short_time;
            })

    on_known : Arrives p u m (arrival_time (some s) (some g) m) Synced
    on_known = elim (Bool-cases (repeats s m)) [
      | inr differs ↦ rw (arrival_changed s g m valid same_id differs) (changed differs)
      | inl same ↦ elim (Bool-cases (in_time s m)) [
        | inr later ↦
            rw (arrival_moved s g m valid order same_id later)
              (moved (repeats→eqs s m same).0 (repeats→eqs s m same).1 later)
        | inl now ↦
            rw (arrival_repeated s g m valid order same_id same now)
              (repeated (repeats→eqs s m same).0 (repeats→eqs s m same).1 (in_time→eqs s m now))
      ]
    ]

  on_any :
      (o o' : Option ChunkStream)
      → p.send_streams (csid_of m.message_type) ≡ o
      → u.streams (csid_of m.message_type) ≡ o'
      → StreamSync o o' u.message_collector.streams
      → InOrder o m
      → Arrives p u m (arrival_time o o' m) Synced
  on_any none none es eg sync order =
      rw (arrival_fresh m) (fresh _ _ refl refl (rw es (ground arith)) (rw eg))
  on_any none (some g) es eg sync order = elim sync [ ]
  on_any (some s) none es eg sync order = elim sync [ ]
  on_any (some s) (some g) es eg sync order =
      elim (ℕ_discrete s.header.message_stream_id m.stream_id) [
        | yes e ↦ on_known s g es eg sync.0 sync.1 order e
        | no n ↦
            rw (arrival_other s g m n)
              (fresh s g (rw es) (rw eg) (ground (arith, n)) sync.0.drained)
      ]

  -- For a packer and an unpacker in step (Synced: the same chunk size above 0, and for every
  -- chunk stream and message stream no message half read and the same header remembered, but for
  -- the time) and a message of type 0 on another stream than 0, of type 4 on stream 0, or of type
  -- 7 or more, with 1 to 2^24-1 bytes, a stream id of 32 bits and a timestamp below 0xffffff and
  -- no earlier than the last that the packer sent on its chunk stream: `WriteMessage` succeeds;
  -- and from a stream that begins with the bytes written, in every segmentation, but with four
  -- bytes or more in the first segment if the packer sends the message in format 2,
  -- `getRtmpMessage` returns the message, with its type, stream and payload and the timestamp
  -- `arrival_time`, leaves exactly what follows these bytes, and both sides are in step again.
  pub message_arrives :
      (more : List ℕ) (r : Reader)
      → InOrder (p.send_streams (csid_of m.message_type)) m
      → bytes r ≡ written p m ++ more
      → (format_of p m ≡ 2 → 4 ≤ first_length r)
      → (q : ChunkPacker) × (write_message p m ≡ ok (q, written p m))
        × Delivered u m
            (arrival_time
              (p.send_streams (csid_of m.message_type))
              (u.streams (csid_of m.message_type))
              m)
            r
            more
            (Synced q)
  message_arrives more r order stream first =
      let (q, w, e, read) = on_any _ _ refl refl (synced.streams (csid_of m.message_type)) order in
      let same : written p m ≡ w = ap written_bytes e in
      (q, e ∙ ap (λ l. ok (q, l)) (sym same), read more r (stream ∙ ap (λ l. l ++ more) same) first)
