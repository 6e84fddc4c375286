-- ===== src/Rtmp/Transfer/Fresh.antt =====
-- The first message of a connection.
use golive.Common.{ℕ, ◌≡◌, ◌≢◌, arith, List, ◌++◌}
use golive.Common.Go.{ok}
use golive.Common.Go.Reader.{Reader, bytes}
use golive.Rtmp.Message.{Message}
use golive.Rtmp.Packer.{ChunkPacker, new_chunk_packer, choose_format, write_message}
use golive.Rtmp.Unpacker.{new_chunk_unpacker}
use golive.Rtmp.Transfer.Whole.{IsValid, format_of, written, Delivered}
use golive.Rtmp.Transfer.Synced.{Synced, Synced-new}
use golive.Rtmp.Transfer.Arrival.{IsPlain, arrival_fresh}
use golive.Rtmp.Transfer.Deliver.{message_arrives}

-- The packer knows no chunk stream yet.
pub format_of-new : (m : Message) → format_of new_chunk_packer m ≢ 2
unfolding new_chunk_packer choose_format
format_of-new m = ground arith

-- A message of type 0 on another stream than 0, of type 4 on stream 0, or of type 7 or more, with
-- 1 to 2^24-1 bytes, a stream id of 32 bits and a timestamp below 0xffffff is written by a new
-- packer without an error; and from a stream that begins with the bytes written, in every
-- segmentation, a new unpacker returns the message with its type, stream and payload, but with
-- the timestamp 0 whatever its own is, what follows these bytes is left unread, and the two sides
-- are in step afterwards.
pub first_message_arrives_at_zero :
    (m : Message) (more : List ℕ) (r : Reader)
    → IsValid m
    → IsPlain m
    → bytes r ≡ written new_chunk_packer m ++ more
    → (q : ChunkPacker) × (write_message new_chunk_packer m ≡ ok (q, written new_chunk_packer m))
      × Delivered new_chunk_unpacker m 0 r more (Synced q)
unfolding new_chunk_packer new_chunk_unpacker
first_message_arrives_at_zero m more r valid plain stream =
    let (q, e, delivered) =
      message_arrives new_chunk_packer new_chunk_unpacker m valid plain Synced-new more r tt stream
        (λ two. absurd (format_of-new m two)) in
    (q, e, rw (arrival_fresh m) at delivered)
