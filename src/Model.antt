-- ===== src/Model.antt =====
-- The rows of db/models and the database that holds them.
pub mod Ops
pub mod Listings
pub mod Evidence
pub mod Clients
pub mod Database
