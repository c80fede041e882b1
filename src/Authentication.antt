-- ===== src/Authentication.antt =====
-- Authentication, bffhd/authentication: the SASL callback and the two FabFire mechanisms.
pub mod Callback
pub mod Protocol
pub mod Steps
pub mod Fabfire
pub mod FabfireBin
pub mod Server
