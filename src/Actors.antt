-- ===== src/Actors.antt =====
-- Actors, bffhd/actors: modules that are told every state of a resource.
pub mod Driver
pub mod Process
pub mod Mqtt
pub mod Modules
