-- ===== src/Amf/Assert.antt =====
-- What the callers of `amf.ReadValue` ask of a value and of an error.
use golive.Common.{ℕ, Bool, true, false, Option, none, some}
use golive.Common.Go.{Result, Error, ok, panic, eof}
use golive.Common.Go.Strings.{GoString}
use golive.Amf.{Value, Fields, number, text, object, null}

-- The type assertions `v.(float64)`, `v.(string)` and `v.(amf.Object)`, with `ok` and without.
unfoldable pub number_of : Value → Option ℕ
number_of (number f) = some f
number_of _ = none

unfoldable pub string_of : Value → Option GoString
string_of (text s) = some s
string_of _ = none

unfoldable pub object_of : Value → Option Fields
object_of (object fs) = some fs
object_of _ = none

abbrev pub asserted : {A : Type 0} → Option A → Result A
asserted (some a) = ok a
asserted none = panic

-- `v == nil`
unfoldable pub is_nil : Value → Bool
is_nil null = true
is_nil _ = false

-- `e == io.EOF`
abbrev pub is_eof : Error → Bool
is_eof eof = true
is_eof _ = false
