-- ===== src/Validation.antt =====
-- validation/: rules on derived values.
pub mod Laundry
