-- ===== src/Codec.antt =====
-- VCookieStore::Serialize and VCookieStore::Deserialize (abstraction/vcookiestore.cpp). A buffer
-- is the list of its bytes. memcpy of a number is that of a 64-bit little-endian machine.
pub mod Write
pub mod Read
pub mod Format
pub mod Emit
pub mod Absorb
pub mod AbsorbElements
pub mod AbsorbVars
pub mod Members
pub mod Fill
pub mod Keep
pub mod Invariant
pub mod Total
pub mod Loaded
pub mod Valid
pub mod Intact
pub mod RoundTrip
