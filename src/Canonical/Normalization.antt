-- ===== src/Canonical/Normalization.antt =====
-- canonical/normalization.py: how an observation becomes canonical state.
pub mod Identity
pub mod Create
pub mod Duplicates
pub mod Places
pub mod Update
pub mod Process
pub mod Frame
pub mod Entry
pub mod Chain
pub mod Rewrites
pub mod Replay
pub mod Cautious
pub mod Override
pub mod Decided
