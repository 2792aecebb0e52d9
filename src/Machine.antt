-- ===== src/Machine.antt =====
-- internal/controller/infrastructure/kwokmachine_controller.go: the reconciler of a KwokMachine,
-- which stands for one machine and keeps a fake Node and its Lease in the workload cluster.
pub mod ProviderId
pub mod Node
pub mod Lease
pub mod Heartbeat
pub mod Provision
pub mod Delete
pub mod Reconcile
