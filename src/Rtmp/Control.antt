-- ===== src/Rtmp/Control.antt =====
-- protocol/rtmp/message.go: the constructors of the control messages, and what the handlers
-- (serverHandler.go, clientHandler.go) read from a `Set Chunk Size` message.
use golive.Common.{ℕ, ◌%◌, ◌^◌, ◌≡◌, ap, ◌∙◌, arith, List, [], ◌∷◌, ◌++◌, replicate, drop}
use golive.Common.{◌==◌, if◌then◌else◌}
use golive.Common.Go.{Result, ok, panic, ◌>>=◌, IsU32}
use golive.ByteIo.Get.{u32_be}
use golive.ByteIo.Put.{put_u32_be}
use golive.ByteIo.RoundTrip.{u32-put}
use golive.Rtmp.Message.{Message}
use golive.Rtmp.Unpacker.{ChunkUnpacker, set_chunk_size}

-- A message of stream 0 and timestamp 0.
abbrev control : ℕ → List ℕ → Message
control t payload = record { message_type = t; timestamp = 0; stream_id = 0; payload = payload }

unfoldable pub new_ack_message : ℕ → Result Message
new_ack_message window_size = do b ← put_u32_be (replicate 4 0) window_size; ok (control 5 b)

-- `message.Payload[4] = limitType`
abbrev set_last_of_five : List ℕ → ℕ → Result (List ℕ)
set_last_of_five (a ∷ b ∷ c ∷ d ∷ e ∷ rest) x = ok (a ∷ b ∷ c ∷ d ∷ x ∷ rest)
set_last_of_five _ x = panic

unfoldable pub new_set_peer_bandwidth_message : ℕ → ℕ → Result Message
new_set_peer_bandwidth_message band_width limit_type = do
  b ← put_u32_be (replicate 5 0) band_width
  b' ← set_last_of_five b limit_type
  ok (control 6 b')

unfoldable pub new_set_chunk_size_message : ℕ → Result Message
new_set_chunk_size_message chunk_size = do
  b ← put_u32_be (replicate 4 0) chunk_size
  ok (control 1 b)

unfoldable pub new_stream_begin : ℕ → Result Message
new_stream_begin functional_stream_id = do
  b ← put_u32_be (replicate 4 0) functional_stream_id
  ok (control 4 (0 ∷ 0 ∷ b))

unfoldable pub new_stream_is_recorded : ℕ → Result Message
new_stream_is_recorded functional_stream_id = do
  b ← put_u32_be (replicate 4 0) functional_stream_id
  ok (control 4 (0 ∷ 4 ∷ b))

unfoldable pub new_set_buffer_length_message : ℕ → ℕ → Result Message
new_set_buffer_length_message functional_stream_id millisecond = do
  b ← put_u32_be (replicate 4 0) functional_stream_id
  b' ← put_u32_be (replicate 4 0) (millisecond % 2 ^ 32)
  ok (control 4 (0 ∷ 3 ∷ (b ++ b')))

-- `handleProtocolControlMessaage`, where the chunk unpacker is the part of the handler that it
-- changes.
unfoldable pub handle_protocol_control_message : ChunkUnpacker → Message → Result ChunkUnpacker
handle_protocol_control_message h m =
    if m.message_type == 1
    then (u32_be m.payload >>= λ chunk_size. ok (set_chunk_size h chunk_size))
    else ok h

-- The 32-bit field at an offset of the payload of a message that was built.
abbrev pub field_at : ℕ → Result Message → Result ℕ
field_at n m = m >>= λ m'. u32_be (drop n m'.payload)

module _ (v : ℕ) (h : IsU32 v) where
  exact : (rest : List ℕ) → (put_u32_be (0 ∷ 0 ∷ 0 ∷ 0 ∷ rest) v >>= u32_be) ≡ ok v
  exact rest = u32-put v rest 0 0 0 0 ∙ ap ok (omega arith)

  ack_field : field_at 0 (new_ack_message v) ≡ ok v
  unfolding new_ack_message put_u32_be u32_be
  ack_field = exact []

  bandwidth_field : (t : ℕ) → field_at 0 (new_set_peer_bandwidth_message v t) ≡ ok v
  unfolding new_set_peer_bandwidth_message put_u32_be u32_be
  bandwidth_field t = exact (t ∷ [])

  chunk_size_field :
      (u : ChunkUnpacker)
      → (new_set_chunk_size_message v >>= handle_protocol_control_message u)
        ≡ ok (set_chunk_size u v)
  unfolding new_set_chunk_size_message handle_protocol_control_message put_u32_be u32_be
  chunk_size_field u = ap (λ e. e >>= λ n. ok (set_chunk_size u n)) (exact [])

  begin_field : field_at 2 (new_stream_begin v) ≡ ok v
  unfolding new_stream_begin put_u32_be u32_be
  begin_field = exact []

  recorded_field : field_at 2 (new_stream_is_recorded v) ≡ ok v
  unfolding new_stream_is_recorded put_u32_be u32_be
  recorded_field = exact []

  buffer_stream : (ms : ℕ) → field_at 2 (new_set_buffer_length_message v ms) ≡ ok v
  unfolding new_set_buffer_length_message put_u32_be u32_be
  buffer_stream ms = exact []

  buffer_length : (id : ℕ) → field_at 6 (new_set_buffer_length_message id v) ≡ ok v
  unfolding new_set_buffer_length_message put_u32_be u32_be
  buffer_length id = let e : v % 2 ^ 32 ≡ v = omega arith in rw e (exact [])

-- A handler that receives the message built by `NewSetChunkSizeMessage` changes the chunk size of its
-- unpacker to the size the message was built for, and nothing else; and the 32-bit fields of the
-- other control messages read back, at their offset, as the number the message was built for:
-- the window and the bandwidth at 0, the stream of a user control message at 2, the buffer
-- length at 6. All for 32-bit numbers.
pub control_fields :
    (v : ℕ)
    → IsU32 v
    → (u : ChunkUnpacker) (other : ℕ)
    → ((new_set_chunk_size_message v >>= handle_protocol_control_message u)
        ≡ ok (set_chunk_size u v))
      × (field_at 0 (new_ack_message v) ≡ ok v)
      × (field_at 0 (new_set_peer_bandwidth_message v other) ≡ ok v)
      × (field_at 2 (new_stream_begin v) ≡ ok v)
      × (field_at 2 (new_stream_is_recorded v) ≡ ok v)
      × (field_at 2 (new_set_buffer_length_message v other) ≡ ok v)
      × (field_at 6 (new_set_buffer_length_message other v) ≡ ok v)
control_fields v h u other = (
  chunk_size_field v h u,
  ack_field v h,
  bandwidth_field v h other,
  begin_field v h,
  recorded_field v h,
  buffer_stream v h other,
  buffer_length v h other,
)
