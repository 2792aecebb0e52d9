-- ===== src/Service.antt =====
-- pkg/services/kwok/cluster: the service that creates, starts and deletes the simulated cluster of a
-- control plane, and publishes its kubeconfig.
pub mod Host
pub mod Kubeconfig
pub mod Secrets
pub mod Reconcile
pub mod Delete
