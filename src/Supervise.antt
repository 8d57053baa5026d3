-- ===== src/Supervise.antt =====
-- internal/supervise: the one workload of the node and the goroutine that owns it.
pub mod Mode
pub mod State
pub mod Supervisor
