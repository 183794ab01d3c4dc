-- ===== src/Reconcile.antt =====
-- internal/reconcile: the control loop of one process.
pub mod Config
pub mod Guards
pub mod Heal
pub mod Nodes
pub mod Tick
pub mod Safety
pub mod Cooldown
