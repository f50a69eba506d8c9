-- ===== src/Broker/Groups/Syncs.antt =====
-- handleSyncGroup of jocko/broker.go.
use jocko.Common.{
  ℕ, Bool, true, false, Option, none, some, List, Str, str_eq, eq_of_str_eq, ◌≡◌, refl, sym, ap,
  subst, ◌∙◌, if◌then◌else◌,
}
use jocko.Common.Int.{ℤ}
use jocko.Common.Eq.{str_Eq, int_eq}
use jocko.Common.Assoc.{find}
use jocko.Fsm.Structs.{Group, Member}
use jocko.Fsm.Store.{Database}
use jocko.Fsm.Apply.{register_group}
use jocko.Protocol.Message.SyncGroup.{SyncGroupRequest, SyncGroupResponse}
use jocko.Broker.Raft.{RaftResult, Cluster, raft_apply}
use jocko.Broker.Groups.{
  Handled, replied, panicked, group_of, sync_group, sync_found, sync_member, sync_state,
  sync_leader, state_error, all_known,
}
use jocko.Broker.Groups.Stores.{group_at, was_written, stamped, index_of, after_entry-group}
use mathlib.Core.Option
use mathlib.Core.Option.{some-injective}

module _ (db : Database) (outcomes : ℕ → RaftResult) where
  abbrev pub members_at : Str → Cluster db → Option (List (Str × Member))
  members_at k c = Option.map (λ g. g.members) (group_at db k c.store)

  -- What holds of the cluster after a reply.
  abbrev pub Within : (Cluster db → Type 0) → Handled (SyncGroupResponse × Cluster db) → Type 0
  Within P (replied (res, c')) = P c'
  Within P panicked = Unit

  -- SyncGroup leaves the cluster as it is or gives Raft an entry for the group as it stands.
  module _ (P : Cluster db → Type 0) (c : Cluster db) (same : P c)
      (entry : (g : Group)
        → group_at db (db.to_lower g.group) c.store ≡ some g
        → P (raft_apply db outcomes (register_group g) c).0) where
    sync_leader-Within :
        (r : SyncGroupRequest) (g : Group)
        → group_at db (db.to_lower g.group) c.store ≡ some g
        → Within P (sync_leader db outcomes r c g)
    unfolding sync_leader
    sync_leader-Within r g found = go _ (all_known g.members r.group_assignments)
      where
        go :
            (res : SyncGroupResponse) (b : Bool)
            → Within P (
                if b
                then replied (res, (raft_apply db outcomes (register_group g) c).0)
                else panicked)
        go res true = entry g found
        go res false = tt

    sync_state-Within :
        (r : SyncGroupRequest) (g : Group) (m : Member) (code : Option ℤ)
        → group_at db (db.to_lower g.group) c.store ≡ some g
        → Within P (sync_state db outcomes r c g m code)
    unfolding sync_state
    sync_state-Within r g m (some code) found = same
    sync_state-Within r g m none found = go _ (str_eq g.leader_id r.member_id)
      where
        go :
            (res : SyncGroupResponse) (b : Bool)
            → Within P (if b then sync_leader db outcomes r c g else replied (res, c))
        go res true = sync_leader-Within r g found
        go res false = same

    sync_member-Within :
        (r : SyncGroupRequest) (g : Group) (member : Option Member)
        → group_at db (db.to_lower g.group) c.store ≡ some g
        → Within P (sync_member db outcomes r c g member)
    unfolding sync_member
    sync_member-Within r g none found = same
    sync_member-Within r g (some m) found = go _ (int_eq r.generation_id g.generation_id)
      where
        go :
            (res : SyncGroupResponse) (b : Bool)
            → Within P (
                if b
                then sync_state db outcomes r c g m (state_error g.state)
                else replied (res, c))
        go res true = sync_state-Within r g m (state_error g.state) found
        go res false = same

    pub sync_found-Within :
        (r : SyncGroupRequest) (found : Option Group)
        → group_of db r.group_id c ≡ found
        → Within P (sync_found db outcomes r c found)
    unfolding sync_found
    sync_found-Within r none e = same
    sync_found-Within r (some g) e = sync_member-Within r g (find r.member_id g.members) (
        subst (λ j. group_at db j c.store ≡ some g)
          (sym (db.group.key-first (db.to_lower r.group_id) c.store.group g e)) e)

  -- An entry for the group as it stands in the store.
  entry-members :
      (c : Cluster db) (g : Group) (k : Str)
      → group_at db (db.to_lower g.group) c.store ≡ some g
      → members_at k (raft_apply db outcomes (register_group g) c).0 ≡ members_at k c
  unfolding raft_apply
  entry-members c g k found =
      ap (Option.map (λ u. u.members)) (after_entry-group db (outcomes c.calls) g c.store k)
      ∙ go (was_written db (outcomes c.calls) g c.store) (str_eq (db.to_lower g.group) k) refl
    where
      go :
          (written b : Bool)
          → str_eq (db.to_lower g.group) k ≡ b
          → Option.map
              (λ u. u.members)
              (if written
                then (if b
                    then some (stamped db (index_of (outcomes c.calls)) g c.store)
                    else group_at db k c.store)
                else group_at db k c.store)
            ≡ members_at k c
      go true true e = sym (
          ap (Option.map (λ u. u.members)) (
            subst (λ j. group_at db j c.store ≡ some g) (eq_of_str_eq (db.to_lower g.group) k e)
              found))
      go true false e = refl
      go false b e = refl

  -- Whatever SyncGroup replies, and whatever Raft does, the members of every group and their
  -- assignments are as they were: the assignments that the leader of a group sends are lost.
  pub sync_group-members :
      (r : SyncGroupRequest) (c c' : Cluster db) (res : SyncGroupResponse) (k : Str)
      → sync_group db outcomes r c ≡ replied (res, c')
      → members_at k c' ≡ members_at k c
  unfolding sync_group
  sync_group-members r c c' res k e =
      subst (Within (λ d. (k : Str) → members_at k d ≡ members_at k c)) e
        (sync_found-Within (λ d. (k : Str) → members_at k d ≡ members_at k c) c (λ k. refl)
          (λ g found k. entry-members c g k found) r (group_of db r.group_id c) refl)
        k
