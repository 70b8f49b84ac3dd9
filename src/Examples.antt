-- ===== src/Examples.antt =====
-- Small clusters, disks and codecs on which the theorems are applied.
pub mod Disks
pub mod ClusterRuns
pub mod Services
pub mod Turns
pub mod Repairs
pub mod Codecs
pub mod Requests
pub mod Changes
pub mod Storage
pub mod Elections
pub mod Logs
pub mod Runs
pub mod Replicas
pub mod Calls
pub mod Processes
pub mod Overcounts
pub mod Cluster
