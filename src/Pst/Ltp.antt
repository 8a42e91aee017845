-- ===== src/Pst/Ltp.antt =====
-- The LTP layer of src/pst/ltp.cpp: values, property contexts and table contexts.
pub mod Text
pub mod Time
pub mod Subs
pub mod Property
pub mod Layout
pub mod Table
