-- ===== src/Codec.antt =====
-- crates/nxfr-core/src/codec.rs and messages.rs: control messages as CBOR maps. CBOR's own bytes are
-- the crate `ciborium`'s, which stands as a parameter.
pub mod Value
pub mod Map
pub mod Getters
pub mod Messages
pub mod Encode
pub mod Decode
pub mod Arrays
pub mod WellFormed
pub mod Items
pub mod Reread
pub mod RoundTrip
pub mod Ensures
pub mod Decoded
pub mod Control
pub mod Refusals
pub mod Unknown
pub mod Order
