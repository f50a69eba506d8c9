-- ===== src/Broker/Groups.antt =====
-- jocko/broker.go: handleJoinGroup, handleLeaveGroup, handleSyncGroup, handleHeartbeat,
-- handleListGroups. GetGroup returns a pointer into the database, so that
-- what a handler assigns to the group or to its map of members shows in the store at once, before
-- Raft has it. Run takes the requests one by one. The map of members is never nil, and the order in
-- which Go ranges over it is the order of the list.
pub mod Stores
pub mod Joins
pub mod Leaves
pub mod Syncs
pub mod Steps
pub mod Rebalances
pub mod Returns
use jocko.Common.{
  ℕ, Bool, true, false, ◌&&◌, Option, none, some, List, [], ◌∷◌, ◌++◌, map, Str, codes, str_eq,
  if◌then◌else◌,
}
use jocko.Common.Int.{ℤ, pos}
use jocko.Common.Eq.{str_Eq, int_eq}
use jocko.Common.Assoc.{find, assign, erase}
use jocko.Fsm.Structs.{
  Group, Member, GroupState, preparing_rebalance, completing_rebalance, stable, dead, empty,
}
use jocko.Fsm.Store.{Database, Store, get_group, get_groups}
use jocko.Fsm.Apply.{register_group}
use jocko.Protocol.Message.JoinGroup.{JoinGroupResponse, ResponseMember}
use jocko.Protocol.Message.Membership.{LeaveGroupRequest, LeaveGroupResponse, HeartbeatRequest}
use jocko.Protocol.Message.SyncGroup.{SyncGroupRequest, SyncGroupResponse, GroupAssignment}
use jocko.Protocol.Message.Groups.{ListGroupsResponse}
use jocko.Broker.Errors.{
  err_unknown, err_none, err_illegal_generation, err_invalid_group_id, err_unknown_member_id,
  err_rebalance_in_progress,
}
pub use jocko.Broker.Membership.{
  JoinGroupRequest, or_new, fresh_id, new_member, member_or_fresh, with_member, leader_or,
  response_members,
}
unfoldable pub use jocko.Broker.Membership.{joined}
pub use jocko.Broker.Handled.{Handled, replied, panicked}
use jocko.Broker.Raft.{RaftResult, Cluster, raft_apply}

pub record HeartbeatResponse : Type 0 where
  pub api_version : ℤ
  pub throttle_time : ℤ
  pub error_code : ℤ

-- The error that the state of a group calls for in SyncGroup.
abbrev pub state_error : GroupState → Option ℤ
state_error empty = some err_unknown_member_id
state_error dead = some err_unknown_member_id
state_error preparing_rebalance = some err_rebalance_in_progress
state_error completing_rebalance = none
state_error stable = none

abbrev is_some : {A : Type 0} → Option A → Bool
is_some none = false
is_some (some a) = true

-- Every assignment of the leader is for a member of the group; the code panics on another.
unfoldable pub all_known : List (Str × Member) → List GroupAssignment → Bool
unfolding find
all_known members [] = true
all_known members (a ∷ rest) = is_some (find a.member_id members) && all_known members rest

abbrev pub code_of : Bool → ℤ
code_of true = err_none
code_of false = err_unknown

module _ (db : Database) where
  -- GetGroup
  abbrev pub group_of : Str → Cluster db → Option Group
  group_of id c = (get_group db id c.store).1

  -- What the assignments through the pointer of GetGroup do; a new group is not in the database.
  unfoldable pub touch_store : Option Group → Group → Store db → Store db
  touch_store none g s = s
  touch_store (some old) g s = record s { group = db.group.mutate g s.group }

  abbrev pub touch : Option Group → Group → Cluster db → Cluster db
  touch found g c = record c { store = touch_store found g c.store }

  module _ (outcomes : ℕ → RaftResult) where
    -- handleJoinGroup. When Raft fails, the response has the error and nothing else.
    unfoldable pub join_group :
        ℤ → Str → Str → JoinGroupRequest → Cluster db → JoinGroupResponse × Cluster db
    unfolding joined touch_store raft_apply
    join_group broker client uuid r c =
        let fresh = fresh_id client uuid in
        let member = member_or_fresh r.member_id fresh in
        let found = group_of r.group_id c in
        let g = joined r.member_id fresh (or_new found r.group_id broker) in
        let (c', fine) = raft_apply db outcomes (register_group g) (touch found g c) in
        (
          record {
            api_version = r.api_version;
            throttle_time = pos 0;
            error_code = code_of fine;
            generation_id = pos 0;
            group_protocol = [];
            leader_id = if fine then g.leader_id else [];
            member_id = if fine then member else [];
            members = response_members (fine && str_eq g.leader_id member) g.members;
          },
          c',
        )

    abbrev pub leave_response : LeaveGroupRequest → ℤ → LeaveGroupResponse
    leave_response r code = record {
      api_version = r.api_version;
      throttle_time = pos 0;
      error_code = code;
    }

    unfoldable pub leave_member :
        LeaveGroupRequest → Cluster db → Group → Option Member → LeaveGroupResponse × Cluster db
    unfolding erase touch_store raft_apply
    leave_member r c g none = (leave_response r err_unknown_member_id, c)
    leave_member r c g (some m) =
        let g' = record g { members = erase r.member_id g.members } in
        let (c', fine) = raft_apply db outcomes (register_group g') (touch (some g) g' c) in
        (leave_response r (code_of fine), c')

    unfoldable pub leave_found :
        LeaveGroupRequest → Cluster db → Option Group → LeaveGroupResponse × Cluster db
    unfolding leave_member find
    leave_found r c none = (leave_response r err_invalid_group_id, c)
    leave_found r c (some g) = leave_member r c g (find r.member_id g.members)

    -- handleLeaveGroup
    unfoldable pub leave_group : LeaveGroupRequest → Cluster db → LeaveGroupResponse × Cluster db
    unfolding leave_found
    leave_group r c = leave_found r c (group_of r.group_id c)

    abbrev pub sync_response : SyncGroupRequest → ℤ → Option (List ℕ) → SyncGroupResponse
    sync_response r code assignment = record {
      api_version = r.api_version;
      throttle_time = pos 0;
      error_code = code;
      member_assignment = assignment;
    }

    -- The leader's assignments are written to copies of the members, so the group is as it was.
    unfoldable pub sync_leader :
        SyncGroupRequest → Cluster db → Group → Handled (SyncGroupResponse × Cluster db)
    unfolding all_known raft_apply
    sync_leader r c g =
        let (c', fine) = raft_apply db outcomes (register_group g) c in
        if all_known g.members r.group_assignments
        then replied (sync_response r (code_of fine) none, c')
        else panicked

    unfoldable pub sync_state :
        SyncGroupRequest
        → Cluster db
        → Group
        → Member
        → Option ℤ
        → Handled (SyncGroupResponse × Cluster db)
    unfolding sync_leader
    sync_state r c g m (some code) = replied (sync_response r code none, c)
    sync_state r c g m none =
        if str_eq g.leader_id r.member_id
        then sync_leader r c g
        else replied (sync_response r err_none m.assignment, c)

    unfoldable pub sync_member :
        SyncGroupRequest
        → Cluster db
        → Group
        → Option Member
        → Handled (SyncGroupResponse × Cluster db)
    unfolding sync_state
    sync_member r c g none = replied (sync_response r err_unknown_member_id none, c)
    sync_member r c g (some m) =
        if int_eq r.generation_id g.generation_id
        then sync_state r c g m (state_error g.state)
        else replied (sync_response r err_illegal_generation none, c)

    unfoldable pub sync_found :
        SyncGroupRequest → Cluster db → Option Group → Handled (SyncGroupResponse × Cluster db)
    unfolding sync_member find
    sync_found r c none = replied (sync_response r err_invalid_group_id none, c)
    sync_found r c (some g) = sync_member r c g (find r.member_id g.members)

    -- handleSyncGroup
    unfoldable pub sync_group :
        SyncGroupRequest → Cluster db → Handled (SyncGroupResponse × Cluster db)
    unfolding sync_found
    sync_group r c = sync_found r c (group_of r.group_id c)

  abbrev pub heartbeat_code : Option Group → ℤ
  heartbeat_code none = err_invalid_group_id
  heartbeat_code (some g) = err_none

  -- handleHeartbeat
  abbrev pub heartbeat : HeartbeatRequest → Cluster db → HeartbeatResponse
  heartbeat r c = record {
    api_version = r.api_version;
    throttle_time = pos 0;
    error_code = heartbeat_code (group_of r.group_id c);
  }

  -- handleListGroups at a version.
  abbrev pub list_groups : ℤ → Cluster db → ListGroupsResponse
  list_groups version c = record {
    api_version = version;
    throttle_time = pos 0;
    error_code = err_none;
    groups =
        map (λ g. record { group_id = g.group; protocol_type = codes "consumer" })
          (get_groups db c.store).1;
  }
