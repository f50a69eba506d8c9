-- ===== src/Broker/Groups/Rebalances.antt =====
-- SyncGroup of jocko/broker.go: no handler takes a group out of the state PreparingRebalance.
use jocko.Common.{ℕ, Bool, true, false, Option, none, some, ◌≡◌, refl, sym, subst, if◌then◌else◌}
use jocko.Common.Int.{ℤ}
use jocko.Common.Eq.{str_Eq, int_eq}
use jocko.Common.Assoc.{find}
use jocko.Fsm.Structs.{Group, Member}
use jocko.Fsm.Store.{Database, new_store}
use jocko.Protocol.Message.SyncGroup.{SyncGroupRequest, SyncGroupResponse}
use jocko.Broker.Errors.{
  err_none, err_unknown_member_id, err_illegal_generation, err_rebalance_in_progress,
  err_invalid_group_id,
}
use jocko.Broker.Raft.{RaftResult, Cluster}
use jocko.Broker.Groups.{
  Handled, replied, group_of, sync_group, sync_found, sync_member, sync_state, state_error,
  sync_response,
}
use jocko.Broker.Groups.Steps.{IsSound, Steps, Steps-AreSound, AreSound-new}

module _ (db : Database) (outcomes : ℕ → RaftResult) where
  -- In a store that started empty and went through any requests of JoinGroup, LeaveGroup and
  -- SyncGroup, SyncGroup always answers an error, has no assignment in its response, and
  -- leaves the cluster as it is.
  pub sync_group-reachable :
      (c : Cluster db) (r : SyncGroupRequest)
      → Steps db outcomes (record { store = new_store db; calls = 0 }) c
      → (code : ℤ) × (int_eq code err_none ≡ false)
        × (sync_group db outcomes r c ≡ replied (sync_response db outcomes r code none, c))
  unfolding sync_group sync_found sync_member sync_state
  sync_group-reachable c r steps =
      go (group_of db r.group_id c)
        ((Steps-AreSound db outcomes _ c steps (AreSound-new db)).at (db.to_lower r.group_id))
    where
      Refuses : Handled (SyncGroupResponse × Cluster db) → Type 0
      Refuses reply =
          (code : ℤ) × (int_eq code err_none ≡ false)
          × (reply ≡ replied (sync_response db outcomes r code none, c))

      member :
          (g : Group) (m : Option Member) → IsSound g → Refuses (sync_member db outcomes r c g m)
      member g none sound = (err_unknown_member_id, refl, refl)
      member g (some m) sound =
          subst
            (λ s. Refuses (
              if int_eq r.generation_id g.generation_id
              then sync_state db outcomes r c g m (state_error s)
              else replied (sync_response db outcomes r err_illegal_generation none, c)))
            (sym sound.state) (chosen (int_eq r.generation_id g.generation_id))
        where
          chosen :
              (b : Bool)
              → Refuses (
                  if b
                  then sync_state db outcomes r c g m (some err_rebalance_in_progress)
                  else replied (sync_response db outcomes r err_illegal_generation none, c))
          chosen true = (err_rebalance_in_progress, refl, refl)
          chosen false = (err_illegal_generation, refl, refl)

      go :
          (found : Option Group)
          → ((g : Group) → found ≡ some g → IsSound g)
          → Refuses (sync_found db outcomes r c found)
      go none h = (err_invalid_group_id, refl, refl)
      go (some g) h = member g (find r.member_id g.members) (h g refl)
