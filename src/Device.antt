-- ===== src/Device.antt =====
-- src/device.rs: registrations, revocation epochs and pairing codes. Tables of the database are
-- functions from their primary key; a failing database is not modelled.
pub mod Registry
pub mod Changes
pub mod Revocation
pub mod Pairing
pub mod Tokens
pub mod Resets
