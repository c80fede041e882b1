-- ===== src/Resources.antt =====
-- Resources and their state: bffhd/resources/mod.rs and bffhd/resources/modules/fabaccess.rs.
pub mod Search
pub mod Machine
pub mod Store
pub mod Operations
