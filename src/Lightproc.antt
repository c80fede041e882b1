-- ===== src/Lightproc.antt =====
-- Lightweight processes, runtime/lightproc: their state word, its transitions, and the life of one.
pub mod State
pub mod Transitions
pub mod System
pub mod Awaiter
pub mod Layout
