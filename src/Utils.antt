-- ===== src/Utils.antt =====
-- The helpers of bffhd/utils.
pub mod Varint
pub mod Linebuffer
