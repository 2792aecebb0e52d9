-- ===== src/MachinePool.antt =====
-- internal/controller/infrastructure/kwokmachinepool_controller.go: the reconciler of a
-- KwokMachinePool, which keeps one child KwokMachine for each replica of its owner MachinePool.
pub mod Child
pub mod Scale
pub mod Status
pub mod Normal
pub mod Converge
pub mod Delete
pub mod Reconcile
