-- ===== src/Cluster.antt =====
-- pkg/cluster: how a run is split over workers.
pub mod Partition
pub mod Whole
pub mod Session
