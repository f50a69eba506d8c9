-- ===== src/Broker/Replicas.antt =====
-- jocko/broker.go: handleLeaderAndISR with startReplica, becomeLeader and becomeFollower, and
-- jocko/replica_lookup.go. The commit logs and the other brokers are the interface Local. A replica
-- that the lookup holds is a pointer, so that what a handler does to it later shows in the lookup.
pub mod Roles
pub mod Answers
use jocko.Common.{
  ℕ, Bool, true, false, ◌&&◌, not, Option, none, some, List, [], ◌∷◌, Str, codes, if◌then◌else◌,
}
use jocko.Common.Int.{ℤ, pos}
use jocko.Common.Eq.{Eq, str_Eq, pair_Eq, int_eq}
use jocko.Common.Assoc.{find, assign, erase}
use jocko.Fsm.Structs.{Topic, Partition}
use jocko.Fsm.TopicConfig.{ConfigValue, TopicConfig, get_value}
use jocko.Fsm.Store.{Database, Store, get_topic}
use jocko.Protocol.Message.LeaderAndIsr.{PartitionState, LeaderAndIsrRequest}
use jocko.Protocol.Message.Replicas.{LeaderAndIsrPartition, LeaderAndIsrResponse}
use jocko.Broker.Errors.{
  err_none, err_unknown, err_unknown_topic_or_partition, err_broker_not_available,
}
use jocko.Broker.Handled.{Handled, replied, panicked, ◌>>=◌}

-- What a broker uses of its disk and of the network.
pub record Local : Type 1 where
  pub Log : Type 0
  -- commitlog.New, for the directory data/<id> and a cleanup policy; `none` is an error.
  pub new_log : ℤ → Str → Option Log
  pub newest_offset : Log → ℤ
  pub truncate : ℤ → Log → Option Log
  -- BrokerByID finds the broker.
  pub knows : ℤ → Bool
  -- Dial reaches it.
  pub dials : ℤ → Bool
  -- conn.LeaderAndISR succeeds.
  pub accepts : ℤ → Bool

abbrev pub config_of : Option TopicConfig → TopicConfig
config_of none = []
config_of (some c) = c

-- contains
unfoldable pub contains : List ℤ → ℤ → Bool
contains [] r = false
contains (ri ∷ rs) r = if int_eq ri r then true else contains rs r

module _ (local : Local) where
  -- `replicator` tells that one copies from the leader. Hw and Leo are not used here.
  pub record Replica : Type 0 where
    pub broker_id : ℤ
    pub partition : Partition
    pub is_local : Bool
    pub log : Option local.Log
    pub replicator : Bool

  -- replicaLookup: replicas by topic and partition.
  abbrev pub Lookup : Type 0
  Lookup = List ((Str × ℤ) × Replica)

  abbrev pub replica_key : Replica → Str × ℤ
  replica_key r = (r.partition.topic, r.partition.id)

  -- AddReplica, Replica and RemoveReplica
  unfoldable pub add_replica : Replica → Lookup → Lookup
  unfolding assign
  add_replica r lookup = assign (replica_key r) r lookup

  unfoldable pub replica : Str → ℤ → Lookup → Option Replica
  unfolding find
  replica topic partition lookup = find (topic, partition) lookup

  unfoldable pub remove_replica : Replica → Lookup → Lookup
  unfolding erase
  remove_replica r lookup = erase (replica_key r) lookup

  -- The replica that a partition state makes; its controller epoch is the version of ZooKeeper.
  abbrev pub new_replica : ℤ → PartitionState → Replica
  new_replica broker p = record {
    broker_id = broker;
    partition = record {
      id = p.partition;
      partition = p.partition;
      topic = p.topic;
      isr = p.isr;
      ar = p.replicas;
      leader = p.leader;
      controller_epoch = p.zk_version;
      leader_epoch = p.leader_epoch;
      raft_index = record { create_index = 0; modify_index = 0 };
    };
    is_local = true;
    log = none;
    replicator = false;
  }

  abbrev pub opened : Replica → Option local.Log → Replica × ℤ
  opened r none = (r, err_unknown)
  opened r (some log) = (record r { log = some log }, err_none)

  -- `.(string)` panics on a policy that is not a string.
  abbrev pub open_with : Replica → ConfigValue → Handled (Replica × ℤ)
  open_with r (ConfigValue.text policy) = replied (opened r (local.new_log r.partition.id policy))
  open_with r v = panicked

  open_missing : Replica → Topic → Option local.Log → Handled (Replica × ℤ)
  unfolding get_value
  open_missing r t none = open_with r (get_value (codes "cleanup.policy") (config_of t.config))
  open_missing r t (some log) = replied (r, err_none)

  -- startReplica, for the topic that GetTopic returns.
  unfoldable pub start_replica : Option Topic → Replica → Handled (Replica × ℤ)
  unfolding open_missing
  start_replica none r = replied (r, err_unknown_topic_or_partition)
  start_replica (some t) r = open_missing r t r.log

  -- becomeLeader; closing a replicator does not fail.
  abbrev pub become_leader : PartitionState → Replica → Replica × ℤ
  become_leader p r = (
    record r {
      replicator = false;
      partition = record (r.partition) {
        leader = p.leader;
        ar = p.replicas;
        isr = p.isr;
        leader_epoch = p.zk_version;
      };
    },
    err_none,
  )

  abbrev pub follow : PartitionState → Replica → Replica × ℤ
  follow p r =
      if local.knows p.leader
      then (if local.dials p.leader
          then (record r { replicator = true }, err_none)
          else (r, err_unknown))
      else (r, err_broker_not_available)

  abbrev pub truncated : PartitionState → Replica → Option local.Log → Replica × ℤ
  truncated p r none = (r, err_unknown)
  truncated p r (some log) = follow p (record r { log = some log })

  -- becomeFollower, which truncates the log to its newest offset; without a log it panics.
  abbrev pub become_follower : PartitionState → Replica → Option local.Log → Handled (Replica × ℤ)
  become_follower p r none = panicked
  become_follower p r (some log) =
      replied (truncated p r (local.truncate (local.newest_offset log) log))

  -- The calls of one round of the loop stop at the first error.
  abbrev pub unless_error : (Replica → Handled (Replica × ℤ)) → Replica × ℤ → Handled (Replica × ℤ)
  unless_error next (r, code) = if int_eq code err_none then next r else replied (r, code)

  -- One round of the loop of handleLeaderAndISR, for the topic in the store.
  unfoldable pub take_role : ℤ → Option Topic → PartitionState → Handled (Replica × ℤ)
  unfolding start_replica contains
  take_role broker topic p =
      let r = new_replica broker p in
      let started = start_replica topic r in
      if int_eq p.leader broker
      then (started >>= unless_error (λ r'. replied (become_leader p r')))
      else if contains p.replicas broker
      then (started >>= unless_error (λ r'. become_follower p r' r'.log))
      else replied (r, err_none)

-- The error code of the response itself is never set.
abbrev pub answers_to : LeaderAndIsrRequest → List LeaderAndIsrPartition → LeaderAndIsrResponse
answers_to req partitions = record {
  api_version = req.api_version;
  error_code = err_none;
  partitions = partitions;
}

module _ (db : Database) (local : Local) where
  abbrev pub answer : PartitionState → ℤ → LeaderAndIsrPartition
  answer p code = record { topic = p.topic; partition = p.partition; error_code = code }

  unfoldable pub take_roles :
      ℤ
      → Store db
      → List PartitionState
      → Lookup local
      → Handled (Lookup local × List LeaderAndIsrPartition)
  unfolding take_role add_replica
  take_roles broker s [] lookup = replied (lookup, [])
  take_roles broker s (p ∷ ps) lookup =
      take_role local broker (get_topic db p.topic s).1 p >>= λ (r, code).
      take_roles broker s ps (add_replica local r lookup) >>= λ (last, rest).
      replied (last, answer p code ∷ rest)

  -- handleLeaderAndISR
  unfoldable pub handle_leader_and_isr :
      ℤ
      → Store db
      → LeaderAndIsrRequest
      → Lookup local
      → Handled (Lookup local × LeaderAndIsrResponse)
  unfolding take_roles
  handle_leader_and_isr broker s req lookup =
      take_roles broker s req.partition_states lookup >>= λ (last, partitions).
      replied (last, answers_to req partitions)
