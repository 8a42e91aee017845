-- ===== src/Imap.antt =====
-- The parsers of src/imap/imap_parse.cpp.
pub mod UidSet
pub mod Strings
pub mod Lines
pub mod Utf7
pub mod Flags
pub mod Folders
pub mod Fetch
