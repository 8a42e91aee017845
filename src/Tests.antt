-- ===== src/Tests.antt =====
-- Concrete runs of the program's parts, at which the theorems' conditions hold.
pub mod Formats
pub mod Ndb
pub mod Heap
pub mod Text
pub mod Imap
pub mod Names
pub mod Ltp
