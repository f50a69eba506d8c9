-- ===== src/Runs.antt =====
-- The theorems at concrete inputs, and the results of small runs.
pub mod Tables
pub mod FsmRuns
pub mod ProtocolRuns
pub mod LogRuns
pub mod GroupMessageRuns
pub mod CoordinatorRuns
pub mod RecordMessageRuns
pub mod AdminMessageRuns
pub mod GroupRuns
pub mod TopicRuns
