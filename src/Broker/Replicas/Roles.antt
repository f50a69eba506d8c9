-- ===== src/Broker/Replicas/Roles.antt =====
-- The role that handleLeaderAndISR of jocko/broker.go gives a replica.
use jocko.Common.{
  Bool, true, false, Option, none, some, Str, codes, ◌≡◌, refl, ap, ◌∙◌, if◌then◌else◌, ◌⊎◌, inl,
  inr,
}
use jocko.Common.Int.{ℤ}
use jocko.Common.Eq.{str_Eq, pair_Eq, int_eq}
use jocko.Fsm.Structs.{Topic}
use jocko.Fsm.TopicConfig.{ConfigValue, get_value}
use jocko.Protocol.Message.LeaderAndIsr.{PartitionState}
use jocko.Broker.Errors.{err_none, err_unknown, err_broker_not_available}
use jocko.Broker.Handled.{Handled, replied, ◌>>=◌}
use jocko.Broker.Replicas.{
  Local, Replica, replica_key, contains, new_replica, opened, open_with, open_missing, config_of,
  start_replica, become_leader, become_follower, follow, truncated, unless_error, take_role,
}

-- The handler replies, with a value that has the property.
abbrev pub Replies : {A : Type 0} → (A → Type 0) → Handled A → Type 0
Replies {A} P o = (a : A) × (o ≡ replied a) × P a

pub Replies-bind :
    {A B : Type 0} (P : A → Type 0) (Q : B → Type 0) (first : Handled A) (next : A → Handled B)
    → Replies P first
    → ((a : A) → P a → Replies Q (next a))
    → Replies Q (first >>= next)
Replies-bind P Q first next (a, e, h) k =
    let (b, f, g) = k a h in (b, ap (λ o. o >>= next) e ∙ f, g)

-- The topic is unknown, or the cleanup policy of its configuration is a string.
abbrev pub HasPolicy : Option Topic → Type 0
HasPolicy none = Unit
HasPolicy (some t) =
    (policy : Str) × (get_value (codes "cleanup.policy") (config_of t.config)
      ≡ ConfigValue.text policy)

module _ (local : Local) where
  -- The replica of a partition state whatever role this broker takes.
  pub record IsFor (p : PartitionState) (r : Replica local) : Type 0 where
    pub key : replica_key local r ≡ (p.topic, p.partition)
    pub leader : r.partition.leader ≡ p.leader
    pub isr : r.partition.isr ≡ p.isr
    pub ar : r.partition.ar ≡ p.replicas

  -- startReplica ends with an error or with a log.
  abbrev Started : PartitionState → Replica local × ℤ → Type 0
  Started p (r, code) =
      IsFor p r × ((int_eq code err_none ≡ false) ⊎ ((log : local.Log) × (r.log ≡ some log)))

  opened-Started :
      (p : PartitionState) (r : Replica local) (log : Option local.Log)
      → IsFor p r
      → Started p (opened local r log)
  opened-Started p r none h = (h, inl refl)
  opened-Started p r (some log) h =
      (record { key = h.key; leader = h.leader; isr = h.isr; ar = h.ar }, inr (log, refl))

  start-Started :
      (p : PartitionState) (topic : Option Topic) (broker : ℤ)
      → HasPolicy topic
      → Replies (Started p) (start_replica local topic (new_replica local broker p))
  unfolding start_replica open_missing
  start-Started p none broker h =
      (_, refl, (record { key = refl; leader = refl; isr = refl; ar = refl }, inl refl))
  start-Started p (some t) broker (policy, e) = (
    opened local (new_replica local broker p) (local.new_log p.partition policy),
    ap (open_with local (new_replica local broker p)) e,
    opened-Started p (new_replica local broker p) (local.new_log p.partition policy)
        (record { key = refl; leader = refl; isr = refl; ar = refl }),
  )

  follow-IsFor : (p : PartitionState) (r : Replica local) → IsFor p r → IsFor p (follow local p r).0
  follow-IsFor p r h = go (local.knows p.leader) (local.dials p.leader)
    where
      go :
          (known dialed : Bool)
          → let o : Replica local × ℤ =
              if known
              then (if dialed then (record r { replicator = true }, err_none) else (r, err_unknown))
              else (r, err_broker_not_available) in
            IsFor p o.0
      go true true = record { key = h.key; leader = h.leader; isr = h.isr; ar = h.ar }
      go true false = h
      go false dialed = h

  truncated-IsFor :
      (p : PartitionState) (r : Replica local) (log : Option local.Log)
      → IsFor p r
      → IsFor p (truncated local p r log).0
  truncated-IsFor p r none h = h
  truncated-IsFor p r (some log) h =
      follow-IsFor p (record r { log = some log })
        (record { key = h.key; leader = h.leader; isr = h.isr; ar = h.ar })

  follower-IsFor :
      (p : PartitionState) (r : Replica local) (log : local.Log)
      → r.log ≡ some log
      → IsFor p r
      → Replies (λ a. IsFor p a.0) (become_follower local p r r.log)
  follower-IsFor p r log e h = (
    truncated local p r (local.truncate (local.newest_offset log) log),
    ap (become_follower local p r) e,
    truncated-IsFor p r (local.truncate (local.newest_offset log) log) h,
  )

  unless_error-IsFor :
      (p : PartitionState) (next : Replica local → Handled (Replica local × ℤ))
      → ((r : Replica local) (log : local.Log)
          → r.log ≡ some log
          → IsFor p r
          → Replies (λ a. IsFor p a.0) (next r))
      → (a : Replica local × ℤ) → Started p a
      → Replies (λ a. IsFor p a.0) (unless_error local next a)
  unless_error-IsFor p next k (r, code) (h, inl failed) =
      ((r, code), ap (λ b. if b then next r else replied (r, code)) failed, h)
  unless_error-IsFor p next k (r, code) (h, inr (log, e)) = go (int_eq code err_none)
    where
      go : (b : Bool) → Replies (λ a. IsFor p a.0) (if b then next r else replied (r, code))
      go true = k r log e h
      go false = ((r, code), refl, h)

  pub take_role-IsFor :
      (broker : ℤ) (topic : Option Topic) (p : PartitionState)
      → HasPolicy topic
      → Replies (λ a. IsFor p a.0) (take_role local broker topic p)
  unfolding take_role
  take_role-IsFor broker topic p policy = go (int_eq p.leader broker) (contains p.replicas broker)
    where
      go :
          (leads follows : Bool)
          → Replies
              (λ a. IsFor p a.0)
              (if leads
                then (start_replica local topic (new_replica local broker p)
                    >>= unless_error local (λ r'. replied (become_leader local p r')))
                else if follows
                then (start_replica local topic (new_replica local broker p)
                    >>= unless_error local (λ r'. become_follower local p r' r'.log))
                else replied (new_replica local broker p, err_none))
      go true follows =
          Replies-bind (Started p) (λ a. IsFor p a.0) _ _ (start-Started p topic broker policy)
            (unless_error-IsFor p _ (λ r log e h.
              (_, refl, record { key = h.key; leader = refl; isr = refl; ar = refl })))
      go false true =
          Replies-bind (Started p) (λ a. IsFor p a.0) _ _ (start-Started p topic broker policy)
            (unless_error-IsFor p _ (λ r log e h. follower-IsFor p r log e h))
      go false false = (_, refl, record { key = refl; leader = refl; isr = refl; ar = refl })
