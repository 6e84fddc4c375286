-- ===== src/Common/Go.antt =====
-- What the models use of Go itself: errors and panics as results, maps, byte slices, and the
-- `io.Reader` that the parsers read from.
pub mod Reader
pub mod Map
pub mod Strings
pub mod Float
use Prim.Native.Nat.{ℕ, ◌<◌, ◌^◌, compare, Ordering}
use golive.Common.Go.Float.{ℤ}
use mathlib.Core.Path.{◌≡◌}
use mathlib.Core.Bool.{Bool}
use mathlib.Core.Option.{Option, none, some}
use mathlib.Core.List.{List}

-- The `error` values that the modelled code creates or passes on.
pub data Error : Type 0 where
  eof unexpected_eof not_enough_data : Error
  overflow offset_mismatch : Error
  unknown_format : ℕ → Error
  wrong_csid : ℕ → Error
  csid_for_msgtype : ℕ → ℕ → Error
  msid_for_msgtype : ℕ → ℕ → Error
  send_msg_streamid : ℕ → Error
  type_error unsupported_type unknown_marker : Error
  expect_object_end object_property_exists marker_object_end : Error
  unsupported_codec : ℕ → Error
  previous_tag_len : ℕ → ℕ → Error
  codec_not_same : ℕ → Error
  wrong_sequence_header : Error
  codec_not_supported : ℤ → Error
  wrong_response wrong_trans_id wrong_role wrong_url no_stream_id not_publishing : Error
  wrong_state : ℕ → Error
  refused_by : List ℕ → Error
  not_registered not_source out_of_range reference_unsupported wrong_size : Error
  crypto_not_supported digest_check_fail : Error
  wrong_version : ℕ → Error
  large_size : Error
  unexpected_version unexpected_flags : ℕ → Error

-- `panic` is a Go run-time panic; `stuck` has no counterpart in the program, it says that a model's
-- fuel ran out, or that it met a value it has no model of.
pub data Result {ℓ} (A : Type ℓ) : Type ℓ where
  ok : A → Result A
  err : Error → Result A
  panic stuck : Result A

infixl 5 ◌>>=◌
abbrev pub ◌>>=◌ {ℓ κ} : {A : Type ℓ} {B : Type κ} → Result A → (A → Result B) → Result B
ok a >>= f = f a
err e >>= f = err e
panic >>= f = panic
stuck >>= f = stuck

abbrev pub IsByte : ℕ → Type 0
IsByte b = b < 256

abbrev pub IsU16 : ℕ → Type 0
IsU16 v = v < 2 ^ 16

abbrev pub IsU24 : ℕ → Type 0
IsU24 v = v < 2 ^ 24

abbrev pub IsU32 : ℕ → Type 0
IsU32 v = v < 2 ^ 32

abbrev pub IsU64 : ℕ → Type 0
IsU64 v = v < 2 ^ 64
