-- ===== src/Pst.antt =====
-- src/pst: the layers of the PST writer.
pub mod Format
pub mod Crc
pub mod Ndb
pub mod Run
pub mod Heap
pub mod Ltp
pub mod NameidMap
