-- ===== src/Runs/GroupRuns.antt =====
-- Runs of the handlers of group membership, on a database of lists.
use jocko.Common.{
  ℕ, ◌+◌, true, false, ◌&&◌, none, some, [], ◌∷◌, codes, str_eq, ◌≡◌, refl, if◌then◌else◌, Str,
}
use jocko.Common.Int.{ℤ, pos}
use jocko.Common.Eq.{str_Eq, int_eq}
use jocko.Common.Assoc.{find, assign}
use jocko.Fsm.Structs.{Group, GroupState}
use jocko.Fsm.Store.{new_store, ensure_group, ensure_group_txn, set_index}
use jocko.Protocol.Message.Membership.{LeaveGroupRequest}
use jocko.Protocol.Message.SyncGroup.{SyncGroupRequest}
use jocko.Broker.Errors.{err_none, err_unknown}
use jocko.Broker.Raft.{RaftResult, applied, dropped, Cluster, raft_apply, after_entry}
use jocko.Fsm.Apply.{apply_message, register_group}
use jocko.Broker.Groups.{
  JoinGroupRequest, replied, group_of, join_group, joined, fresh_id, touch_store, leave_group,
  sync_group, sync_found, sync_member, sync_state, sync_leader, all_known, new_member,
  sync_response,
}
use jocko.Broker.Groups.Stores.{group_at, was_written}
use jocko.Broker.Groups.Joins.{
  is_nil, leader_of, entry_of, before_raft, members_of, join_group-applied, join_group-dropped,
}
use jocko.Broker.Groups.Leaves.{left_of, before_leave, leave_group-applied}
use jocko.Broker.Groups.Syncs.{members_at, sync_group-members}
use jocko.Broker.Groups.Steps.{Steps, join, rest, next, IsSound, reachable-IsSound}
use jocko.Broker.Groups.Returns.{leave_group-join_group}
use jocko.Broker.Groups.Rebalances.{sync_group-reachable}
use jocko.Runs.Tables.{list_db, list_table, first, without}
use mathlib.Core.Option

-- Raft applies every entry, under the indexes from 1 on.
abbrev applies : ℕ → RaftResult
applies n = applied (n + 1)

abbrev drops : ℕ → RaftResult
drops n = dropped

abbrev start : Cluster list_db
start = record { store = new_store list_db; calls = 0 }

abbrev join_request : JoinGroupRequest
join_request = record {
  api_version = pos 1;
  group_id = codes "Readers";
  session_timeout = pos 0;
  rebalance_timeout = pos 0;
  member_id = [];
  protocol_type = codes "consumer";
  group_protocols = [];
}

-- The cluster after the first member has joined.
abbrev one_member : Cluster list_db
one_member = (join_group list_db applies (pos 1) (codes "c") (codes "u") join_request start).1

abbrev c_u : Str
c_u = codes "c-u"

abbrev leave_request : LeaveGroupRequest
leave_request = record { api_version = pos 1; group_id = codes "readers"; member_id = c_u }

start-written :
    was_written list_db
      (applied 1)
      (entry_of list_db (pos 1) (codes "c") (codes "u") join_request start)
      (before_raft list_db (pos 1) (codes "c") (codes "u") join_request start).store
    ≡ true
unfolding was_written ensure_group ensure_group_txn set_index list_table first without touch_store
    joined assign
start-written = refl

abbrev readers : Group
readers = record {
  id = [];
  group = codes "Readers";
  coordinator = pos 1;
  leader_id = c_u;
  members = (c_u, new_member c_u) ∷ [];
  state = GroupState.preparing_rebalance;
  generation_id = pos 0;
  raft_index = record { create_index = 1; modify_index = 1 };
}

readers-found : group_of list_db (codes "READERS") one_member ≡ some readers
unfolding join_group raft_apply after_entry apply_message ensure_group ensure_group_txn set_index
    list_table first without touch_store joined assign str_eq
readers-found = refl

readers-member : find c_u readers.members ≡ some (new_member c_u)
unfolding find str_eq
readers-member = refl

join_group-applied_example :
    let (res, c') = join_group list_db applies (pos 1) (codes "c") (codes "u") join_request start in
    (res.error_code ≡ err_none)
    × (x : Group) × (x.leader_id ≡ res.leader_id)
    × ((l : Str)
        → find l x.members ≡ (
            if is_nil join_request.member_id && str_eq res.member_id l
            then some (new_member res.member_id)
            else find l (members_of (group_of list_db join_request.group_id start))))
    × ((k : Str)
        → group_at list_db k c'.store ≡ (
            if str_eq (list_db.to_lower join_request.group_id) k
            then some x
            else group_at list_db k start.store))
join_group-applied_example =
    join_group-applied list_db (pos 1) (codes "c") (codes "u") join_request applies 1 start refl
      start-written

join_group-dropped_example :
    let (res, c') =
      join_group list_db drops (pos 1) (codes "d") (codes "v") join_request one_member in
    let fresh = fresh_id (codes "d") (codes "v") in
    let found = group_of list_db join_request.group_id one_member in
    (res.error_code ≡ err_unknown)
    × (x : Group) × (x.leader_id ≡ (
        if is_nil (leader_of found)
        then (if is_nil join_request.member_id then fresh else join_request.member_id)
        else leader_of found))
    × ((l : Str)
        → find l x.members ≡ (
            if is_nil join_request.member_id && str_eq fresh l
            then some (record { id = fresh; metadata = none; assignment = none })
            else find l (members_of found)))
    × ((k : Str)
        → group_at list_db k c'.store ≡ (
            if str_eq (list_db.to_lower join_request.group_id) k
            then Option.map (λ _. x) (group_at list_db k one_member.store)
            else group_at list_db k one_member.store))
join_group-dropped_example =
    join_group-dropped list_db (pos 1) (codes "d") (codes "v") join_request drops one_member refl

readers-written :
    was_written list_db
      (applied 2)
      (left_of list_db leave_request readers)
      (before_leave list_db leave_request readers one_member).store
    ≡ true
unfolding was_written ensure_group ensure_group_txn set_index list_table
readers-written = refl

leave_group-applied_example :
    let (res, c') = leave_group list_db applies leave_request one_member in
    (res.error_code ≡ err_none)
    × (x : Group) × (x.leader_id ≡ readers.leader_id)
    × ((l : Str)
        → find l x.members
          ≡ (if str_eq leave_request.member_id l then none else find l readers.members))
    × ((k : Str)
        → group_at list_db k c'.store ≡ (
            if str_eq (list_db.to_lower leave_request.group_id) k
            then some x
            else group_at list_db k one_member.store))
unfolding join_group raft_apply
leave_group-applied_example =
    leave_group-applied list_db leave_request applies 2 one_member readers (new_member c_u)
      readers-found readers-member refl readers-written

abbrev stable_readers : Group
stable_readers = record readers { state = GroupState.stable }

abbrev stable_group : Cluster list_db
stable_group = (raft_apply list_db applies (register_group stable_readers) start).0

-- The assignment that the leader sends for itself.
abbrev leader_request : SyncGroupRequest
leader_request = record {
  api_version = pos 1;
  group_id = codes "readers";
  generation_id = pos 0;
  member_id = c_u;
  group_assignments = record { member_id = c_u; member_assignment = some (1 ∷ []) } ∷ [];
}

abbrev synced : Cluster list_db
synced =
    (raft_apply list_db applies
      (register_group
        (record stable_readers { raft_index = record { create_index = 1; modify_index = 1 } }))
      stable_group).0

leader-synced :
    sync_group list_db applies leader_request stable_group
    ≡ replied (sync_response list_db applies leader_request err_none none, synced)
unfolding sync_group sync_found sync_member sync_state sync_leader all_known raft_apply after_entry
    apply_message ensure_group ensure_group_txn set_index list_table first without find str_eq
leader-synced = refl

sync_group-members_example :
    members_at list_db applies (codes "readers") synced
    ≡ members_at list_db applies (codes "readers") stable_group
sync_group-members_example =
    sync_group-members list_db applies leader_request stable_group synced
      (sync_response list_db applies leader_request err_none none) (codes "readers") leader-synced

abbrev to_one_member : Steps list_db applies start one_member
to_one_member =
    next start start one_member (rest start)
      (join (pos 1) (codes "c") (codes "u") join_request start)

sync_group-reachable_example :
    (code : ℤ) × (int_eq code err_none ≡ false)
    × (sync_group list_db applies leader_request one_member
        ≡ replied (sync_response list_db applies leader_request code none, one_member))
sync_group-reachable_example =
    sync_group-reachable list_db applies one_member leader_request to_one_member

reachable-IsSound_example : IsSound readers
reachable-IsSound_example =
    reachable-IsSound list_db applies one_member (codes "readers") readers to_one_member
      readers-found

leave_group-join_group_example :
    let (res, joined) =
      join_group list_db applies (pos 1) (codes "c") (codes "u") join_request start in
    let leave : LeaveGroupRequest = record {
      api_version = pos 1;
      group_id = join_request.group_id;
      member_id = res.member_id;
    } in
    let (answer, left) = leave_group list_db applies leave joined in
    (answer.error_code ≡ err_none)
    × (y : Group) × (group_of list_db join_request.group_id left ≡ some y)
    × (y.leader_id ≡ res.leader_id)
    × ((l : Str)
        → find l y.members ≡ find l (members_of (group_of list_db join_request.group_id start)))
unfolding join_group raft_apply was_written ensure_group ensure_group_txn set_index list_table find
leave_group-join_group_example =
    leave_group-join_group list_db applies (pos 1) (codes "c") (codes "u") join_request (pos 1) 1 2
      start refl refl refl start-written refl (λ g e. refl)
