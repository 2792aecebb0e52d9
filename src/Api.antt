-- ===== src/Api.antt =====
-- The objects that the controllers read and write: those of this repository's API groups, and of
-- the objects of Kubernetes and Cluster API the fields that the source names.
pub mod Meta
pub mod Core
pub mod Workload
pub mod Kwok
