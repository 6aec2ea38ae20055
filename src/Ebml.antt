-- ===== src/Ebml.antt =====
-- src/ebml.rs: EBML variable-length integers, element headers and elements.
pub mod Varint
pub mod Tag
pub mod Element
mod Tests
