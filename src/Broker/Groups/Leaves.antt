-- ===== src/Broker/Groups/Leaves.antt =====
-- handleLeaveGroup of jocko/broker.go.
use jocko.Common.{ℕ, true, none, some, Str, str_eq, ◌≡◌, refl, ap, ◌∙◌, if◌then◌else◌}
use jocko.Common.Eq.{str_Eq}
use jocko.Common.Assoc.{find, erase, find-erase}
use jocko.Fsm.Structs.{Group, Member}
use jocko.Fsm.Store.{Database}
use jocko.Fsm.Apply.{register_group}
use jocko.Protocol.Message.Membership.{LeaveGroupRequest}
use jocko.Broker.Errors.{err_none}
use jocko.Broker.Raft.{RaftResult, is_fine, applied, Cluster, after_entry, raft_apply}
use jocko.Broker.Groups.{group_of, touch, leave_group, leave_found, leave_member, code_of}
use jocko.Broker.Groups.Stores.{
  group_at, was_written, with_group, stamped, after_entry-group, over_touched,
}

module _ (db : Database) (r : LeaveGroupRequest) where
  -- The group that the handler gives to Raft, and the cluster at that time.
  abbrev pub left_of : Group → Group
  left_of g = record g { members = erase r.member_id g.members }

  abbrev pub before_leave : Group → Cluster db → Cluster db
  before_leave g c = touch db (some g) (left_of g) c

  leave_group-found :
      (outcomes : ℕ → RaftResult) (c : Cluster db) (g : Group) (m : Member)
      → group_of db r.group_id c ≡ some g
      → find r.member_id g.members ≡ some m
      → leave_group db outcomes r c ≡ leave_member db outcomes r c g (some m)
  unfolding leave_group leave_found
  leave_group-found outcomes c g m found member =
      ap (leave_found db outcomes r c) found ∙ ap (leave_member db outcomes r c g) member

  -- When the group has the member, Raft applies the entry and its transaction succeeds, LeaveGroup
  -- answers no error, the group loses that member and no other and keeps its leader, even when the
  -- leader is the member that left, and every other group is as it was.
  pub leave_group-applied :
      (outcomes : ℕ → RaftResult) (idx : ℕ) (c : Cluster db) (g : Group) (m : Member)
      → group_of db r.group_id c ≡ some g
      → find r.member_id g.members ≡ some m
      → outcomes c.calls ≡ applied idx
      → was_written db (applied idx) (left_of g) (before_leave g c).store ≡ true
      → let (res, c') = leave_group db outcomes r c in
        (res.error_code ≡ err_none)
        × (x : Group) × (x.leader_id ≡ g.leader_id)
        × ((l : Str) → find l x.members ≡ (if str_eq r.member_id l then none else find l g.members))
        × ((k : Str)
            → group_at db k c'.store
              ≡ (if str_eq (db.to_lower r.group_id) k then some x else group_at db k c.store))
  unfolding leave_group leave_found leave_member raft_apply
  leave_group-applied outcomes idx c g m found member h w =
      let s = (before_leave g c).store in
      let x = stamped db idx (left_of g) s in
      let same = leave_group-found outcomes c g m found member in
      (
        ap (λ p. p.0.error_code) same ∙ ap (λ o. code_of (is_fine o)) h,
        x,
        refl,
        λ l. find-erase r.member_id g.members l,
        λ k.
            ap (λ p. group_at db k p.1.store) same
            ∙ ap (λ o. group_at db k (after_entry db o (register_group (left_of g)) s)) h
            ∙ after_entry-group db (applied idx) (left_of g) s k
            ∙ ap (λ b. with_group db b idx (left_of g) s k) w
            ∙ over_touched db (some g) (left_of g) x c (db.to_lower r.group_id) k
                (db.group.key-first (db.to_lower r.group_id) c.store.group g found),
      )
