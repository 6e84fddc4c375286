-- ===== src/Rtmp/Transfer/Synced.antt =====
-- The relation between a packer and the unpacker at the other end of its connection, between two
-- messages, and that a message keeps it.
use golive.Common.{ℕ, ◌<◌, ◌≤◌, ◌≡◌, refl, sym, ◌∙◌, arith, some, none, Option}
use golive.Common.{false, []}
use golive.Rtmp.Chunk.{ChunkMessageHeader, ChunkStream}
use golive.Rtmp.Message.{MessageStream}
use golive.Rtmp.Packer.{ChunkPacker, new_chunk_packer}
use golive.Rtmp.Unpacker.{ChunkUnpacker, new_chunk_unpacker}
use golive.Rtmp.Message.{new_message_collector}
use golive.Rtmp.Transfer.Continue.{Idle, Frame}
use golive.Rtmp.Transfer.Formats.{Agree}
use golive.Rtmp.Transfer.Send.{Sent}
use native.Mathlib.Decide.{ℕ_discrete}

-- A message stream that no message is in the middle of.
abbrev pub IsAtRest : Option MessageStream → Type 0
IsAtRest none = Unit {0}
IsAtRest (some ms) = (ms.is_collecting ≡ false) × (ms.collected ≡ [])

abbrev pub IsKnown {ℓ} : {A : Type ℓ} → Option A → Type 0
IsKnown none = ⊥
IsKnown (some a) = Unit {0}

-- What the two sides remember of one chunk stream, with the message streams of the receiver.
abbrev pub StreamSync :
    Option ChunkStream → Option ChunkStream → (ℕ → Option MessageStream) → Type 0
StreamSync none none ms = Unit {0}
StreamSync none (some g) ms = ⊥
StreamSync (some s) none ms = ⊥
StreamSync (some s) (some g) ms = Agree s g × IsKnown (ms g.header.message_stream_id)

pub record Synced (p : ChunkPacker) (u : ChunkUnpacker) : Type 0 where
  pub size : u.chunk_size ≡ p.send_chunk_size
  pub positive : 0 < p.send_chunk_size
  pub streams : (j : ℕ) → StreamSync (p.send_streams j) (u.streams j) u.message_collector.streams
  pub messages : (j : ℕ) → IsAtRest (u.message_collector.streams j)

-- A fresh packer and a fresh unpacker are in step.
pub Synced-new : Synced new_chunk_packer new_chunk_unpacker
unfolding new_chunk_packer new_chunk_unpacker new_message_collector
Synced-new = record { size = refl; positive = omega arith; streams = λ j. tt; messages = λ j. tt }

-- The headers that two sides remember after a message.
pub record AgreeHeaders (s g : ChunkMessageHeader) : Type 0 where
  pub length_eq : g.message_length ≡ s.message_length
  pub type_eq : g.message_type_id ≡ s.message_type_id
  pub stream_eq : g.message_stream_id ≡ s.message_stream_id
  pub behind : g.timestamp ≤ s.timestamp
  pub short_time : s.timestamp < 0xffffff

Agree-of_headers :
    (s g : ChunkStream) (hs hg : ChunkMessageHeader)
    → s.header ≡ hs
    → g.header ≡ hg
    → g.remain ≡ 0
    → AgreeHeaders hs hg
    → Agree s g
Agree-of_headers s g hs hg es eg drained a = record {
  drained = drained;
  length_eq = rw (es, eg) a.length_eq;
  type_eq = rw (es, eg) a.type_eq;
  stream_eq = rw (es, eg) a.stream_eq;
  behind = rw (es, eg) a.behind;
  short_time = rw es a.short_time;
}

module _ (p q : ChunkPacker) (u v : ChunkUnpacker) (csid : ℕ) (hs hg : ChunkMessageHeader)
    (before : Synced p u) (sent : Sent p q csid hs) (idle : Idle v csid hg)
    (frame : Frame u v csid hg.message_stream_id) (agree : AgreeHeaders hs hg) where
  IsKnown-here : IsKnown (v.message_collector.streams hg.message_stream_id)
  IsKnown-here = rw idle.message_found tt

  keeps_IsKnown :
      (id : ℕ) → IsKnown (u.message_collector.streams id) → IsKnown (v.message_collector.streams id)
  keeps_IsKnown id k = elim (ℕ_discrete hg.message_stream_id id) [
    | yes e ↦ rw e at IsKnown-here
    | no n ↦ rw (frame.messages id n) k
  ]

  keeps_sync :
      (o o' : Option ChunkStream)
      → StreamSync o o' u.message_collector.streams
      → StreamSync o o' v.message_collector.streams
  keeps_sync none none k = tt
  keeps_sync none (some g) k = elim k [ ]
  keeps_sync (some s) none k = elim k [ ]
  keeps_sync (some s) (some g) k = (k.0, keeps_IsKnown g.header.message_stream_id k.1)

  sync_here : StreamSync (q.send_streams csid) (v.streams csid) v.message_collector.streams
  sync_here =
      rw (sent.found, idle.found)
        (
          Agree-of_headers sent.stream idle.stream hs hg sent.header_eq idle.header_eq idle.drained
              agree,
          rw idle.header_eq IsKnown-here,
        )

  rest_here : IsAtRest (v.message_collector.streams hg.message_stream_id)
  rest_here = rw idle.message_found (idle.message_idle, idle.message_empty)

  pub Synced-after : Synced q v
  Synced-after = record {
    size = frame.size ∙ before.size ∙ sym sent.size;
    positive = rw sent.size before.positive;
    streams = λ j. elim (ℕ_discrete csid j) [
      | yes e ↦ rw e at sync_here
      | no n ↦
          rw (sent.streams j n, frame.streams j n)
            (keeps_sync (p.send_streams j) (u.streams j) (before.streams j))
    ];
    messages = λ j. elim (ℕ_discrete hg.message_stream_id j) [
      | yes e ↦ rw e at rest_here
      | no n ↦ rw (frame.messages j n) (before.messages j)
    ];
  }
