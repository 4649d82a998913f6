-- ===== src/Store.antt =====
-- internal/store: the byte encoding of the keys under which everything is kept.
pub mod Bytes
pub mod Order
pub mod Keys
