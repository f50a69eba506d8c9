-- ===== src/Broker/Groups/Steps.antt =====
-- The handlers of jocko/broker.go that change groups, as steps of the cluster, and what holds of the
-- groups however many of them run.
use jocko.Common.{
  ℕ, Bool, true, false, Option, none, some, [], ◌∷◌, All, Str, str_eq, ◌≡◌, refl, sym, subst, ◌∙◌,
  if◌then◌else◌,
}
use jocko.Common.Int.{ℤ}
use jocko.Common.Eq.{str_Eq}
use jocko.Common.Assoc.{find, erase, All-assign, All-erase}
use jocko.Fsm.Structs.{Group, Member, preparing_rebalance}
use jocko.Fsm.Store.{Database, Store, new_store}
use jocko.Fsm.Apply.{register_group}
use jocko.Protocol.Message.Membership.{LeaveGroupRequest}
use jocko.Protocol.Message.SyncGroup.{SyncGroupRequest, SyncGroupResponse}
use jocko.Broker.Raft.{RaftResult, Cluster, raft_apply}
use jocko.Broker.Groups.{
  replied, JoinGroupRequest, group_of, touch, touch_store, join_group, leave_group, leave_found,
  leave_member, sync_group, joined, fresh_id, member_or_fresh, leader_or, or_new,
}
use jocko.Broker.Groups.Stores.{
  group_at, was_written, stamped, index_of, after_entry-group, touch-group,
}
use jocko.Broker.Groups.Joins.{is_nil}
use jocko.Broker.Groups.Syncs.{Within, sync_found-Within}
use mathlib.Core.Option
use mathlib.Core.Option.{some-injective}

-- A group has a leader, each of its members stands under its own id, and it is about to rebalance.
pub record IsSound (g : Group) : Type 0 where
  pub leader : is_nil g.leader_id ≡ false
  pub members : All (λ m. m.0 ≡ m.1.id) g.members
  pub state : g.state ≡ preparing_rebalance

fresh_id-nil : (client uuid : Str) → is_nil (fresh_id client uuid) ≡ false
fresh_id-nil [] uuid = refl
fresh_id-nil (c ∷ cs) uuid = refl

leader-nil :
    (leader member fresh : Str)
    → is_nil fresh ≡ false
    → is_nil (leader_or leader (member_or_fresh member fresh)) ≡ false
leader-nil [] [] fresh h = h
leader-nil [] (c ∷ cs) fresh h = refl
leader-nil (c ∷ cs) member fresh h = refl

joined-IsSound :
    (member fresh : Str) (g : Group)
    → is_nil fresh ≡ false
    → All (λ m. m.0 ≡ m.1.id) g.members
    → g.state ≡ preparing_rebalance
    → IsSound (joined member fresh g)
unfolding joined
joined-IsSound [] fresh g h ms st = record {
  leader = leader-nil g.leader_id [] fresh h;
  members = All-assign (λ m. m.0 ≡ m.1.id) fresh _ g.members refl ms;
  state = st;
}
joined-IsSound (c ∷ cs) fresh g h ms st = record {
  leader = leader-nil g.leader_id (c ∷ cs) fresh h;
  members = ms;
  state = st;
}

module _ (db : Database) where
  pub record AreSound (s : Store db) : Type 0 where
    pub at : (k : Str) (g : Group) → group_at db k s ≡ some g → IsSound g

  pub AreSound-new : AreSound (new_store db)
  AreSound-new = record { at = λ k g e. cc (db.group.first-empty k) }

  AreSound-touch :
      (found : Option Group) (g : Group) (c : Cluster db)
      → IsSound g
      → AreSound c.store
      → AreSound (touch db found g c).store
  unfolding touch_store
  AreSound-touch none g c sound h = h
  AreSound-touch (some old) g c sound h = record {
    at = λ k u e.
        go u (str_eq (db.to_lower g.group) k) (group_at db k c.store)
          (sym (touch-group db old g c k) ∙ e) (h.at k);
  }
    where
      go :
          (u : Group) (b : Bool) (o : Option Group)
          → (if b then Option.map (λ _. g) o else o) ≡ some u
          → ((v : Group) → o ≡ some v → IsSound v)
          → IsSound u
      go u true none e kept = cc
      go u true (some v) e kept = subst IsSound (some-injective _ _ e) sound
      go u false o e kept = kept u e

  AreSound-entry :
      (outcomes : ℕ → RaftResult) (g : Group) (c : Cluster db)
      → IsSound g
      → AreSound c.store
      → AreSound (raft_apply db outcomes (register_group g) c).0.store
  unfolding raft_apply
  AreSound-entry outcomes g c sound h = record {
    at = λ k u e.
        go u (was_written db (outcomes c.calls) g c.store) (str_eq (db.to_lower g.group) k)
          (group_at db k c.store) (sym (after_entry-group db (outcomes c.calls) g c.store k) ∙ e)
          (h.at k);
  }
    where
      go :
          (u : Group) (written b : Bool) (o : Option Group)
          → (if written
              then (if b then some (stamped db (index_of (outcomes c.calls)) g c.store) else o)
              else o)
            ≡ some u
          → ((v : Group) → o ≡ some v → IsSound v)
          → IsSound u
      go u true true o e kept =
          subst IsSound (some-injective _ _ e)
            (record { leader = sound.leader; members = sound.members; state = sound.state })
      go u true false o e kept = kept u e
      go u false b o e kept = kept u e

  module _ (outcomes : ℕ → RaftResult) where
    -- A request that changes groups, carried out by a broker of some id.
    pub data Step : Cluster db → Cluster db → Type 0 where
      join :
          (broker : ℤ) (client uuid : Str) (r : JoinGroupRequest) (c : Cluster db)
          → Step c (join_group db outcomes broker client uuid r c).1
      leave : (r : LeaveGroupRequest) (c : Cluster db) → Step c (leave_group db outcomes r c).1
      sync :
          (r : SyncGroupRequest) (c c' : Cluster db) (res : SyncGroupResponse)
          → sync_group db outcomes r c ≡ replied (res, c')
          → Step c c'

    pub data Steps : Cluster db → Cluster db → Type 0 where
      rest : (c : Cluster db) → Steps c c
      next : (c c' c'' : Cluster db) → Steps c c' → Step c' c'' → Steps c c''

    join-AreSound :
        (broker : ℤ) (client uuid : Str) (r : JoinGroupRequest) (c : Cluster db)
        → AreSound c.store
        → AreSound (join_group db outcomes broker client uuid r c).1.store
    unfolding join_group
    join-AreSound broker client uuid r c h =
        let fresh = fresh_id client uuid in
        let g = joined r.member_id fresh (or_new (group_of db r.group_id c) r.group_id broker) in
        let sound : IsSound g =
          joined-IsSound r.member_id fresh _ (fresh_id-nil client uuid)
            (go (group_of db r.group_id c) (λ u e. h.at (db.to_lower r.group_id) u e)).0
            (go (group_of db r.group_id c) (λ u e. h.at (db.to_lower r.group_id) u e)).1 in
        AreSound-entry outcomes g (touch db (group_of db r.group_id c) g c) sound
          (AreSound-touch (group_of db r.group_id c) g c sound h)
      where
        go :
            (found : Option Group)
            → ((u : Group) → found ≡ some u → IsSound u)
            → All (λ m. m.0 ≡ m.1.id) (or_new found r.group_id broker).members
              × ((or_new found r.group_id broker).state ≡ preparing_rebalance)
        go none k = (tt, refl)
        go (some u) k = ((k u refl).members, (k u refl).state)

    leave-AreSound :
        (r : LeaveGroupRequest) (c : Cluster db)
        → AreSound c.store
        → AreSound (leave_group db outcomes r c).1.store
    unfolding leave_group leave_found leave_member
    leave-AreSound r c h = go (group_of db r.group_id c) (λ g e. h.at (db.to_lower r.group_id) g e)
      where
        member :
            (g : Group) (m : Option Member)
            → IsSound g
            → AreSound (leave_member db outcomes r c g m).1.store
        member g none sound = h
        member g (some m) sound =
            let g' = record g { members = erase r.member_id g.members } in
            let sound' : IsSound g' = record {
              leader = sound.leader;
              members = All-erase (λ m. m.0 ≡ m.1.id) r.member_id g.members sound.members;
              state = sound.state;
            } in
            AreSound-entry outcomes g' (touch db (some g) g' c) sound'
              (AreSound-touch (some g) g' c sound' h)

        go :
            (found : Option Group)
            → ((g : Group) → found ≡ some g → IsSound g)
            → AreSound (leave_found db outcomes r c found).1.store
        go none k = h
        go (some g) k = member g (find r.member_id g.members) (k g refl)

    sync-AreSound :
        (r : SyncGroupRequest) (c c' : Cluster db) (res : SyncGroupResponse)
        → sync_group db outcomes r c ≡ replied (res, c')
        → AreSound c.store
        → AreSound c'.store
    unfolding sync_group
    sync-AreSound r c c' res e h = subst (Within db outcomes (λ d. AreSound d.store)) e (
        sync_found-Within db outcomes (λ d. AreSound d.store) c h
          (λ g found. AreSound-entry outcomes g c (h.at (db.to_lower g.group) g found) h) r
          (group_of db r.group_id c) refl)

    Step-AreSound : (c c' : Cluster db) → Step c c' → AreSound c.store → AreSound c'.store
    Step-AreSound _ _ (join broker client uuid r c) h = join-AreSound broker client uuid r c h
    Step-AreSound _ _ (leave r c) h = leave-AreSound r c h
    Step-AreSound _ _ (sync r c c' res e) h = sync-AreSound r c c' res e h

    pub Steps-AreSound : (c c' : Cluster db) → Steps c c' → AreSound c.store → AreSound c'.store
    Steps-AreSound _ _ (rest c) h = h
    Steps-AreSound _ _ (next c c' c'' before last) h =
        Step-AreSound c' c'' last (Steps-AreSound c c' before h)

    -- In a store that started empty and went through any requests of JoinGroup, LeaveGroup and
    -- SyncGroup, whatever Raft did with their entries, every group has a leader, each of its members
    -- stands under its own id, and its state is still PreparingRebalance.
    pub reachable-IsSound :
        (c : Cluster db) (k : Str) (g : Group)
        → Steps (record { store = new_store db; calls = 0 }) c
        → group_at db k c.store ≡ some g
        → IsSound g
    reachable-IsSound c k g steps e = (Steps-AreSound _ c steps AreSound-new).at k g e
