-- ===== src/Api.antt =====
-- The Cap'n Proto API: bffhd/capnp.
pub mod Users
pub mod Cards
pub mod Machine
pub mod Login
