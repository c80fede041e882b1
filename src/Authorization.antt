-- ===== src/Authorization.antt =====
-- The access control of bffhd/authorization.
pub mod Permissions
pub mod Roles
