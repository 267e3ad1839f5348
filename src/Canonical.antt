-- ===== src/Canonical.antt =====
-- canonical/: the services over the canonical listings.
pub mod Events
pub mod Fingerprint
pub mod Normalization
pub mod Human
pub mod Merge
pub mod Selection
pub mod Admission
pub mod Facts
pub mod Disappearance
