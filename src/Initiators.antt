-- ===== src/Initiators.antt =====
-- Initiators, bffhd/initiators: modules that set the state of a resource on their own.
pub mod Process
pub mod Dummy
