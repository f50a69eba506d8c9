-- ===== src/Protocol/Message.antt =====
-- The messages of protocol/, each with the calls of its Encode and the reads of its Decode.
pub mod LeaderAndIsr
pub mod JoinGroup
pub mod Membership
pub mod SyncGroup
pub mod Fetch
pub mod Produce
pub mod Topics
pub mod Metadata
pub mod Offsets
pub mod FindCoordinator
pub mod Replicas
pub mod Groups
pub mod AlterConfigs
pub mod DescribeConfigs
