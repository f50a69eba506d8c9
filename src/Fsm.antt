-- ===== src/Fsm.antt =====
-- jocko/fsm and jocko/structs: the replicated state of the cluster, which the Raft log drives.
pub mod TopicConfig
pub mod Structs
pub mod Memdb
pub mod Tables
pub mod Store
pub mod Apply
pub mod Spec
