-- ===== src/Rtmp/Client/Built.antt =====
-- The messages that a publisher sends, and the server's answers to it (protocol/rtmp/message.go): the
-- packer takes the former, and the latter are command messages.
use golive.Common.{ℕ, ◌≡◌, refl, ap, false, not, ◌&&◌, ltb, ◌==◌, none}
use mathlib.Core.Path.{transport}
use golive.Common.Go.{Result, ok}
use golive.Common.Go.Strings.{GoString}
use golive.Common.Go.Float.{pos}
use golive.Amf.Write.{
  write_value, write_siblings, write_siblings_as_objects, write_element_as_object, write_pairs,
}
use golive.ByteIo.Put.{put_u32_be}
use golive.Rtmp.Message.{Message}
use golive.Rtmp.Written.{Gives, gives, Gives-ok}
use golive.Rtmp.Control.{new_set_chunk_size_message}
use golive.Rtmp.Commands.{
  new_release_stream_message, new_fc_publish_message, new_create_stream_message,
  new_publish_message,
}
use golive.Rtmp.Commands.{
  new_connect_success_message, new_create_stream_success_message, new_publish_success_message,
}

-- A message that the packer takes.
abbrev pub Plain : Message → Type 0
Plain m = (ltb 0 m.message_type && ltb m.message_type 7 && not (m.stream_id == 0)) ≡ false

pub release-Plain : (t : ℕ) (s : GoString) → Gives Plain (new_release_stream_message t s)
unfolding new_release_stream_message write_siblings_as_objects write_element_as_object write_value
release-Plain t s = gives refl

pub fc_publish-Plain : (t : ℕ) (s : GoString) → Gives Plain (new_fc_publish_message t s)
unfolding new_fc_publish_message write_siblings_as_objects write_element_as_object write_value
fc_publish-Plain t s = gives refl

pub create_stream-Plain : (t : ℕ) → Gives Plain (new_create_stream_message t none)
unfolding new_create_stream_message write_siblings_as_objects write_element_as_object write_value
create_stream-Plain t = gives refl

pub publish-Plain : (t : ℕ) (a s : GoString) → Gives Plain (new_publish_message t a s)
unfolding new_publish_message write_siblings_as_objects write_element_as_object write_value
publish-Plain t a s = gives refl

pub chunk_size-Plain : Gives Plain (new_set_chunk_size_message 1024)
unfolding new_set_chunk_size_message put_u32_be
chunk_size-Plain = gives refl

abbrev pub IsCommand : Message → Type 0
IsCommand m = m.message_type ≡ 20

pub connect_success-IsCommand : Gives IsCommand new_connect_success_message
unfolding new_connect_success_message write_siblings_as_objects write_element_as_object write_value
    write_pairs
connect_success-IsCommand = gives refl

pub create_stream_success-IsCommand :
    (t : ℕ) → Gives IsCommand (new_create_stream_success_message (pos t))
unfolding new_create_stream_success_message write_siblings write_value
create_stream_success-IsCommand t = gives refl

pub publish_success-IsCommand : Gives IsCommand new_publish_success_message
unfolding new_publish_success_message write_siblings_as_objects write_element_as_object write_value
    write_pairs
publish_success-IsCommand = gives refl

pub IsCommand-ok : {x : Result Message} (m : Message) → Gives IsCommand x → x ≡ ok m → IsCommand m
IsCommand-ok m v e = Gives-ok m (transport (ap (Gives IsCommand) e) v)
