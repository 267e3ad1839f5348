-- ===== src/Enums.antt =====
-- contracts/enums.py, by the part of the system that uses each enumeration.
pub mod Listing
pub mod Facts
pub mod Ops
pub mod Human
pub mod Transit
