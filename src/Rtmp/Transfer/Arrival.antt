-- ===== src/Rtmp/Transfer/Arrival.antt =====
-- The timestamp with which a message arrives (protocol/rtmp/pack.go).
use golive.Common.{ℕ, ◌+◌, ◌-◌, ◌%◌, ◌^◌, ◌≤◌, ◌≡◌, ◌≢◌, ◌⊎◌, inl, inr, refl}
use golive.Common.{arith, Bool, true, false, not, ◌&&◌, ◌||◌, some, none, Option, length}
use golive.Common.{◌==◌, if◌then◌else◌, Bool-cases}
use golive.Rtmp.Chunk.{ChunkBasicHeader, ChunkStream}
use golive.Rtmp.Message.{Message}
use golive.Rtmp.Packer.{is_proto_ctrl_msg, csid_of}
use golive.Rtmp.Transfer.Whole.{IsValid, header_of}

-- The basic header that the chunks of a message share.
abbrev pub basic_of : Message → ChunkBasicHeader
basic_of m = record { format = 0; chunk_stream_id = csid_of m.message_type }

-- Messages that the packer does not treat as protocol control messages, which it always sends in
-- format 0.
abbrev pub IsPlain : Message → Type 0
IsPlain m = is_proto_ctrl_msg (basic_of m) (header_of m) ≡ false

-- The messages of a chunk stream are sent in the order of their timestamps.
abbrev pub InOrder : Option ChunkStream → Message → Type 0
InOrder none m = Unit {0}
InOrder (some s) m = s.header.timestamp ≤ m.timestamp

-- The timestamp with which `m` arrives, from what the sender and the receiver remember of its chunk
-- stream: 0 on a fresh stream or another message stream; else the receiver's time moved on as
-- the sender's, but not where the delta or the time is that of the message before.
unfoldable pub arrival_time : Option ChunkStream → Option ChunkStream → Message → ℕ
arrival_time none g m = 0
arrival_time (some s) none m = 0
arrival_time (some s) (some g) m =
    let delta = m.timestamp - s.header.timestamp in
    let repeated =
      s.header.message_length == length m.payload && s.header.message_type_id == m.message_type in
    let same_time = s.header.timestamp == m.timestamp || s.header.time_delta == delta in
    if not (s.header.message_stream_id == m.stream_id)
    then 0
    else if repeated && same_time
    then g.header.timestamp
    else g.header.timestamp + delta

-- The two tests of the packer on a stream that it knows.
abbrev pub repeats : ChunkStream → Message → Bool
repeats s m =
    s.header.message_length == (length m.payload % 2 ^ 32)
    && s.header.message_type_id == m.message_type

abbrev pub in_time : ChunkStream → Message → Bool
in_time s m =
    s.header.timestamp == m.timestamp
    || s.header.time_delta == ((m.timestamp + 2 ^ 32 - s.header.timestamp) % 2 ^ 32)

pub repeats→eqs :
    (s : ChunkStream) (m : Message)
    → repeats s m ≡ true
    → (s.header.message_length ≡ length m.payload % 2 ^ 32)
      × (s.header.message_type_id ≡ m.message_type)
repeats→eqs s m h = ground arith

pub in_time→eqs :
    (s : ChunkStream) (m : Message)
    → in_time s m ≡ true
    → (s.header.timestamp ≡ m.timestamp)
      ⊎ (s.header.time_delta ≡ (m.timestamp + 2 ^ 32 - s.header.timestamp) % 2 ^ 32)
in_time→eqs s m h = elim (Bool-cases (s.header.timestamp == m.timestamp)) [
  | inl e ↦ inl (ground arith)
  | inr e ↦ inr (ground arith)
]

pub arrival_fresh : (m : Message) → arrival_time none none m ≡ 0
unfolding arrival_time
arrival_fresh m = refl

module _ (s g : ChunkStream) (m : Message) where
  pub arrival_other :
      s.header.message_stream_id ≢ m.stream_id → arrival_time (some s) (some g) m ≡ 0
  unfolding arrival_time
  arrival_other n = ground arith

  module _ (valid : IsValid m) where
    fits : length m.payload % 2 ^ 32 ≡ length m.payload
    fits = omega (arith, valid.length_24)

    pub arrival_changed :
        s.header.message_stream_id ≡ m.stream_id
        → repeats s m ≡ false
        → arrival_time (some s) (some g) m ≡ g.header.timestamp + (m.timestamp - s.header.timestamp)
    unfolding arrival_time
    arrival_changed same h = ground (arith, fits)

    module _ (order : s.header.timestamp ≤ m.timestamp) where
      exact :
          (m.timestamp + 2 ^ 32 - s.header.timestamp) % 2 ^ 32 ≡ m.timestamp - s.header.timestamp
      exact = omega (arith, valid.short_time)

      pub arrival_moved :
          s.header.message_stream_id ≡ m.stream_id
          → in_time s m ≡ false
          → arrival_time (some s) (some g) m
            ≡ g.header.timestamp + (m.timestamp - s.header.timestamp)
      unfolding arrival_time
      arrival_moved same h = ground (arith, exact)

      pub arrival_repeated :
          s.header.message_stream_id ≡ m.stream_id
          → repeats s m ≡ true
          → in_time s m ≡ true
          → arrival_time (some s) (some g) m ≡ g.header.timestamp
      unfolding arrival_time
      arrival_repeated same h h' = ground (arith, fits, exact)
