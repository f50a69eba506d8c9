-- ===== src/Broker.antt =====
-- jocko/broker.go: the handlers of requests, which change the state of the cluster through Raft.
pub mod Errors
pub mod Raft
pub mod Membership
pub mod Groups
pub mod Handled
pub mod Placement
pub mod Replicas
pub mod Topics
