-- ===== src/Json.antt =====
-- What the program uses of Go's package `encoding/json`: reading an object of two strings into a
-- struct (`Unmarshal`, and a `Decoder`), and writing one (`Marshal`).
pub mod Utf8
pub mod Strings
pub mod Values
pub mod Structs
pub mod Scanner
pub mod Runes
pub mod Escapes
pub mod Beginnings
pub mod Scanned
pub mod Unquoting
pub mod Decoding
pub mod Fields
pub mod Rounds
pub mod RuneTrip
pub mod RoundTrip
pub mod StructTrip
mod Tests
