-- ===== src/Fsm/Structs.antt =====
-- jocko/structs/structs.go: what the store keeps.
use jocko.Common.{ℕ, Bool, Option, List, Str}
use jocko.Common.Int.{ℤ}
use jocko.Fsm.TopicConfig.{TopicConfig}

-- The log index that created a row and the one that changed it last.
pub record RaftIndex : Type 0 where
  pub create_index : ℕ
  pub modify_index : ℕ

pub record HealthCheck : Type 0 where
  pub node : Str
  pub check_id : Str
  pub name : Str
  pub status : Str
  pub output : Str
  pub raft_index : RaftIndex

pub record Node : Type 0 where
  pub id : ℤ
  pub node : ℤ
  pub address : Str
  pub check : Option HealthCheck
  pub meta : List (Str × Str)
  pub raft_index : RaftIndex

-- A nil Config is `none`.
pub record Topic : Type 0 where
  pub id : Str
  pub topic : Str
  pub partitions : List (ℤ × List ℤ)
  pub config : Option TopicConfig
  pub internal : Bool
  pub raft_index : RaftIndex

pub record Partition : Type 0 where
  pub id : ℤ
  pub partition : ℤ
  pub topic : Str
  pub isr : List ℤ
  pub ar : List ℤ
  pub leader : ℤ
  pub controller_epoch : ℤ
  pub leader_epoch : ℤ
  pub raft_index : RaftIndex

pub record Member : Type 0 where
  pub id : Str
  pub metadata : Option (List ℕ)
  pub assignment : Option (List ℕ)

pub data GroupState : Type 0 where
  preparing_rebalance completing_rebalance stable dead empty : GroupState

pub record Group : Type 0 where
  pub id : Str
  pub group : Str
  pub coordinator : ℤ
  pub leader_id : Str
  pub members : List (Str × Member)
  pub state : GroupState
  pub generation_id : ℤ
  pub raft_index : RaftIndex
