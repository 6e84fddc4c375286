-- ===== src/Amf.antt =====
-- utils/amf (amf0.go, amftools.go, defines.go): the values of AMF0, with which the RTMP commands are
-- written.
pub mod Objects
pub mod Read
pub mod Assert
pub mod Write
pub mod Total
pub mod Decimal
pub mod Entries
pub mod Keys
pub mod RoundTrip
pub mod Values
pub mod Short
pub mod Amf3
mod Examples
use golive.Common.{ℕ, Bool, List}
use golive.Common.Go.Strings.{GoString}

-- The dynamic types of the `interface{}` values that are read and written. A `float64` is the number
-- of its 64 bits, a date the bits of its milliseconds, an integer a `uint32`, a byte array a `[]byte`. An `Object`, a Go map, is the list of its
-- entries in the order of their keys.
mutual
  pub data Value : Type 0 where
    number : ℕ → Value
    boolean : Bool → Value
    text : GoString → Value
    object : Fields → Value
    array : Items → Value
    null : Value
    undefined : Value
    date : ℕ → Value
    integer : ℕ → Value
    byte_array : List ℕ → Value

  pub data Fields : Type 0 where
    end : Fields
    field : GoString → Value → Fields → Fields

  pub data Items : Type 0 where
    nil : Items
    cons : Value → Items → Items
