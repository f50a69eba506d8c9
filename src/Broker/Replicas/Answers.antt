-- ===== src/Broker/Replicas/Answers.antt =====
-- What handleLeaderAndISR of jocko/broker.go promises.
use jocko.Common.{
  Bool, true, false, Option, none, some, List, [], ◌∷◌, map, Str, ◌≡◌, refl, ap, ◌∙◌, if◌then◌else◌,
  All,
}
use jocko.Common.Int.{ℤ}
use jocko.Common.Eq.{str_Eq, pair_Eq}
use jocko.Common.Assoc.{find, find-assign}
use jocko.Fsm.Store.{Database, Store, get_topic}
use jocko.Protocol.Message.LeaderAndIsr.{PartitionState, LeaderAndIsrRequest}
use jocko.Protocol.Message.Replicas.{LeaderAndIsrPartition, LeaderAndIsrResponse}
use jocko.Broker.Errors.{err_none}
use jocko.Broker.Handled.{replied, ◌>>=◌}
use jocko.Broker.Replicas.Roles.{Replies, HasPolicy, IsFor, take_role-IsFor}
use jocko.Broker.Replicas.{
  Local, Replica, Lookup, replica_key, add_replica, take_roles, answer, handle_leader_and_isr,
  answers_to,
}

abbrev pub state_name : PartitionState → Str × ℤ
state_name p = (p.topic, p.partition)

abbrev pub answer_name : LeaderAndIsrPartition → Str × ℤ
answer_name a = (a.topic, a.partition)

-- The last state of a request for a partition.
unfoldable pub last_state : Str × ℤ → List PartitionState → Option PartitionState
last_state k [] = none
last_state k (p ∷ ps) = elim (last_state k ps) [
  | none ↦ if pair_Eq.beq (p.topic, p.partition) k then some p else none
  | some q ↦ some q
]

module _ (db : Database) (local : Local) where
  -- The partition of a key has the replica for its state, or the one that it had.
  abbrev pub Registers : Str × ℤ → Option PartitionState → Lookup local → Lookup local → Type 0
  Registers k none lookup last = find k last ≡ find k lookup
  Registers k (some p) lookup last = (r : Replica local) × (find k last ≡ some r) × IsFor local p r

  Registers-add :
      (k : Str × ℤ) (p : PartitionState) (r : Replica local) (lookup last : Lookup local)
      → IsFor local p r
      → (o : Option PartitionState) → Registers k o (add_replica local r lookup) last
      → Registers k
          (elim o [
            | none ↦ if pair_Eq.beq (state_name p) k then some p else none
            | some q ↦ some q
          ])
          lookup
          last
  unfolding add_replica
  Registers-add k p r lookup last h (some q) later = later
  Registers-add k p r lookup last h none same = go (pair_Eq.beq (state_name p) k) (
      same
      ∙ find-assign (replica_key local r) r lookup k
      ∙ ap (λ key. if pair_Eq.beq key k then some r else find k lookup) h.key)
    where
      go :
          (b : Bool)
          → find k last ≡ (if b then some r else find k lookup)
          → Registers k (if b then some p else none) lookup last
      go true e = (r, e, h)
      go false e = e

  take_roles-Registers :
      (broker : ℤ) (s : Store db) (ps : List PartitionState) (lookup : Lookup local)
      → All (λ p. HasPolicy (get_topic db p.topic s).1) ps
      → Replies
          (λ (last, answers).
            (map answer_name answers ≡ map state_name ps)
            × ((k : Str × ℤ) → Registers k (last_state k ps) lookup last))
          (take_roles db local broker s ps lookup)
  unfolding take_roles last_state
  take_roles-Registers broker s [] lookup h = (_, refl, (refl, λ k. refl))
  take_roles-Registers broker s (p ∷ ps) lookup (h, hs) =
      let ((r, code), one, is_for) = take_role-IsFor local broker (get_topic db p.topic s).1 p h in
      let ((last, answers), others, (names, regs)) =
        take_roles-Registers broker s ps (add_replica local r lookup) hs in
      (
        (last, answer db local p code ∷ answers),
        ap
              (λ o. o >>= λ (r, code).
                take_roles db local broker s ps (add_replica local r lookup) >>= λ (last, rest).
                replied (last, answer db local p code ∷ rest))
              one
            ∙ ap (λ o. o >>= λ (last, rest). replied (last, answer db local p code ∷ rest)) others,
        (
          ap (λ l. (p.topic, p.partition) ∷ l) names,
          λ k. Registers-add k p r lookup last is_for (last_state k ps) (regs k),
        ),
      )

  -- When the topics of the request that the store has give a string as their cleanup policy,
  -- handleLeaderAndISR replies, whichever logs and brokers it can open and reach. The response names
  -- the partitions of the request in their order. A partition of the request has from then on a
  -- replica with the leader, the in-sync replicas and the replicas of its last state, even where the
  -- answer is an error, and every other partition has the replica that it had.
  pub handle_leader_and_isr-Registers :
      (broker : ℤ) (s : Store db) (req : LeaderAndIsrRequest) (lookup : Lookup local)
      → All (λ p. HasPolicy (get_topic db p.topic s).1) req.partition_states
      → (last : Lookup local) × (res : LeaderAndIsrResponse) × (handle_leader_and_isr db local
            broker s req lookup
          ≡ replied (last, res))
        × (res.error_code ≡ err_none)
        × (map answer_name res.partitions ≡ map state_name req.partition_states)
        × ((k : Str × ℤ) → Registers k (last_state k req.partition_states) lookup last)
  unfolding handle_leader_and_isr
  handle_leader_and_isr-Registers broker s req lookup h =
      let ((last, answers), e, (names, regs)) =
        take_roles-Registers broker s req.partition_states lookup h in
      (
        last,
        answers_to req answers,
        ap (λ o. o >>= λ (last, partitions). replied (last, answers_to req partitions)) e,
        refl,
        names,
        regs,
      )
