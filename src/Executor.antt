-- ===== src/Executor.antt =====
-- The executor of the server, runtime/executor.
pub mod LoadBalancer
pub mod Worker
pub mod Supervision
