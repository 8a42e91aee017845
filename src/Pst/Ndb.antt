-- ===== src/Pst/Ndb.antt =====
-- src/pst/ndb.h and ndb.cpp: the raw file, its allocation maps, the block store and the B-trees.
pub mod State
pub mod Space
pub mod Blocks
pub mod Subnodes
pub mod Pages
pub mod Finish
