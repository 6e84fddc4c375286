-- ===== src/Exchange.antt =====
-- exchange/expair.go: the pairing of sources and sinks. `Source` and `ConnPool` are what the
-- goroutines `work` and `pairPad` own; a channel is the list of the values that wait in it.
pub mod Work
pub mod Pool
pub mod Pairing
pub mod Order
pub mod Refused
pub mod FanOut
pub mod Keyed
mod Examples
use golive.Common.{ℕ, ◌+◌, Option, none, some, List, ◌++◌}
use golive.Common.Go.{Error}
use golive.Common.Go.Strings.{GoString}
use golive.Flv.{ExData}

-- A `StreamHandler` by its stream key and by its identity, as `%p` prints it.
pub record StreamHandler : Type 0 where
  pub app_stream_key : GoString
  pub pointer : GoString

pub record Sink : Type 0 where
  pub handler : StreamHandler
  pub msg_chan : List ExData
  pub key_in_src : GoString

-- The messages that a source receives.
pub data PadMessage : Type 0 where
  register_sink : Sink → PadMessage
  data_message : ExData → PadMessage
  unregister_sink : StreamHandler → PadMessage

-- `gop_cache` is the list of the messages that were pushed to the cache, whose own code is not in the
-- repository and of which only the length is logged.
-- `cancelled` is not a field in Go: it lists the sinks that the source has called `Cancel` of.
pub record Source : Type 0 where
  pub handler : StreamHandler
  pub src_chan : List PadMessage
  pub sinks : List (GoString × Sink)
  pub failure : Option Error
  pub gop_cache : List ExData
  pub video_decoder_configuration_record : Option (List ℕ)
  pub aac_sequence_header : Option (List ℕ)
  pub av_meta_data : Option (List ℕ)
  pub cancelled : List StreamHandler

-- `key + fmt.Sprintf("%p", h)`
abbrev pub key_in_src_of : StreamHandler → GoString
key_in_src_of h = h.app_stream_key ++ h.pointer
