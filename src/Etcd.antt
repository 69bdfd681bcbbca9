-- ===== src/Etcd.antt =====
-- pkg/reconcilers/etcd_cluster/: the reconciler of the etcd cluster of a control plane.
pub mod Calls
pub mod Space
pub mod Volumes
pub mod Defragmentation
pub mod Health
pub mod Schedule
pub mod Backup
pub mod Container
pub mod Cluster
