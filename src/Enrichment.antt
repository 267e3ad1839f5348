-- ===== src/Enrichment.antt =====
-- enrichment/: what is derived about a listing.
pub mod Tiering
pub mod Usefulness
