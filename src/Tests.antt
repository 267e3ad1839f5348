-- ===== src/Tests.antt =====
-- Runs of the modelled services on small databases, and the theorems at such runs.
mod Queue
mod Merge
mod Clients
mod Inventory
mod Tiering
mod Normalization
mod Acquisition
mod Usefulness
