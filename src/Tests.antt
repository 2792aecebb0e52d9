-- ===== src/Tests.antt =====
-- Runs of the model, and of its theorems, in a world that the tests build.
mod Fake
mod WorkloadClient
mod Machine
mod MachinePool
mod KwokClusters
mod FakeHost
mod ControlPlanes
mod KwokConfigs
mod Version
mod Manager
