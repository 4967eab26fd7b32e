-- ===== src/Tests.antt =====
-- Concrete services, and the theorems at concrete inputs.
mod Sim
mod SimCluster
mod SimServices
mod SimNeutron
mod SimLibraries
mod OpenStack
mod Process
mod Wiring
mod Fake
mod OpenStackPorts
mod Azure
mod Client
mod Config
mod Queue
mod Aws
mod Gcp
mod GcpLedger
mod GcpCluster
