-- ===== src/Rlp.antt =====
-- The crate rlp: headers, the reader with its caches, the writer, and the format itself.
pub mod Error
pub mod Header
pub mod Untrusted
pub mod Trusted
pub mod Stream
pub mod Format
pub mod Impls
mod Tests
