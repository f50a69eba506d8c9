-- ===== src/Broker/Topics.antt =====
-- createTopic of jocko/broker.go, and what the handlers of topics give to withTimeout. A function
-- that withTimeout does not wait for stays in the background of the broker until it runs, whole and
-- before some later round of a handler; which one ends when is an argument.
pub mod Handlers
pub mod Background
pub mod Removals
pub mod Deletes
pub mod Entries
pub mod Creates
use jocko.Common.{
  ℕ, zero, suc, ◌+◌, Bool, true, false, Option, none, some, List, [], ◌∷◌, map, length, Str,
  if◌then◌else◌, ◌++◌, get_elem?,
}
use jocko.Common.Int.{ℤ, pos, negsuc}
use jocko.Common.Eq.{Eq, int_Eq, int_eq}
use jocko.Common.Assoc.{assign}
use jocko.Fsm.Structs.{Topic, Partition}
use jocko.Fsm.Store.{Database, Store, get_topic}
use jocko.Fsm.Apply.{register_topic, deregister_topic, register_partition}
use jocko.Protocol.Message.LeaderAndIsr.{PartitionState, LeaderAndIsrRequest}
use jocko.Protocol.Message.Topics.{TopicErrorCode, CreateTopicsResponse, DeleteTopicsRequest}
use jocko.Broker.Errors.{
  err_none, err_unknown, err_topic_already_exists, err_not_controller, err_request_timed_out,
  err_invalid_replication_factor,
}
use jocko.Broker.Handled.{Handled, replied, panicked, ◌>>=◌}
use jocko.Broker.Raft.{RaftResult, Cluster, raft_apply}
use jocko.Broker.Placement.{exceeds, build_partitions}
use jocko.Broker.Replicas.{Local, Lookup, handle_leader_and_isr}

-- The assignment and the settings of a request are not used.
pub record CreateTopicRequest : Type 0 where
  pub topic : Str
  pub num_partitions : ℤ
  pub replication_factor : ℤ

pub record CreateTopicRequests : Type 0 where
  pub api_version : ℤ
  pub requests : List CreateTopicRequest
  pub timeout : ℤ

-- What createTopic does not determine: the order in which the lookup of brokers returns their ids,
-- for the ring and for the calls, and the results of rand.Intn.
pub record Choices : Type 0 where
  pub brokers : List ℤ
  pub told : List ℤ
  pub moves : ℕ → ℕ

-- The functions that the handlers of topics give to withTimeout.
pub data Job : Type 0 where
  create : Choices → CreateTopicRequest → Job
  delete : Str → Job

-- A function that withTimeout left behind, and whether the channel that it sends on is closed.
pub record Pending : Type 0 where
  pub job : Job
  pub closed : Bool

-- The timing of a round: the functions of the background that end before it, each by its place
-- there, and whether the timer of the round fires first.
pub record Clock : Type 0 where
  pub finished : List ℕ
  pub late : Bool

abbrev pub remove_at {ℓ} : {A : Type ℓ} → ℕ → List A → List A
remove_at n [] = []
remove_at zero (x ∷ xs) = xs
remove_at (suc n) (x ∷ xs) = x ∷ remove_at n xs

-- tt.Partitions[partition.ID] = partition.AR
unfoldable pub assignments : List Partition → List (ℤ × List ℤ) → List (ℤ × List ℤ)
unfolding assign
assignments [] m = m
assignments (p ∷ ps) m = assignments ps (assign p.id p.ar m)

abbrev pub new_topic : Str → List Partition → Topic
new_topic name ps = record {
  id = [];
  topic = name;
  partitions = assignments ps [];
  config = none;
  internal = false;
  raft_index = record { create_index = 0; modify_index = 0 };
}

abbrev pub state_of : Partition → PartitionState
state_of p = record {
  topic = p.topic;
  partition = p.id;
  controller_epoch = pos 0;
  leader = p.leader;
  leader_epoch = pos 0;
  isr = p.isr;
  zk_version = pos 0;
  replicas = p.ar;
  is_new = false;
}

-- The request that tells the brokers of the new partitions.
abbrev pub roles_request : ℤ → List Partition → LeaderAndIsrRequest
roles_request controller ps = record {
  api_version = pos 0;
  controller_id = controller;
  controller_epoch = pos 0;
  partition_states = map state_of ps;
  live_leaders = [];
}

-- `timeout <= 0`
abbrev pub is_immediate : ℤ → Bool
is_immediate (pos zero) = true
is_immediate (pos (suc n)) = false
is_immediate (negsuc n) = true

module _ (db : Database) (local : Local) where
  -- What a handler changes: the cluster, the replicas of this broker and the functions it left behind.
  pub record Broker : Type 0 where
    pub cluster : Cluster db
    pub lookup : Lookup local
    pub background : List Pending

  module _ (outcomes : ℕ → RaftResult) where
    -- createPartition for each of the partitions, up to the first error.
    unfoldable pub create_partitions : List Partition → Cluster db → Cluster db × Bool
    unfolding raft_apply
    create_partitions [] c = (c, true)
    create_partitions (p ∷ ps) c =
        let (c', fine) = raft_apply db outcomes (register_partition p) c in
        let rest = create_partitions ps c' in if fine then rest else (c', false)

    -- The loop over the brokers, with its own id for the one that runs it.
    unfoldable pub announce : ℤ → LeaderAndIsrRequest → List ℤ → Broker → Handled (Broker × ℤ)
    unfolding handle_leader_and_isr
    announce me req [] b = replied (b, err_none)
    announce me req (id ∷ brokers) b =
        let remote = announce me req brokers b in
        if int_eq id me
        then (handle_leader_and_isr db local me b.cluster.store req b.lookup >>= λ (last, res).
            announce me req brokers (record b { lookup = last }))
        else (if local.dials id
            then (if local.accepts id then remote else replied (b, err_unknown))
            else replied (b, err_unknown))

    -- createTopic from the registration of the topic on.
    unfoldable pub register_all : ℤ → List ℤ → Str → List Partition → Broker → Handled (Broker × ℤ)
    unfolding raft_apply create_partitions announce
    register_all me brokers name ps b =
        let (c, fine) = raft_apply db outcomes (register_topic (new_topic name ps)) b.cluster in
        let (c', all) = create_partitions ps c in
        let told = announce me (roles_request me ps) brokers (record b { cluster = c' }) in
        if fine
        then (if all then told else replied (record b { cluster = c' }, err_unknown))
        else replied (record b { cluster = c }, err_unknown)

    unfoldable pub create_missing :
        ℤ → Choices → CreateTopicRequest → Option Topic → Broker → Handled (Broker × ℤ)
    unfolding register_all build_partitions
    create_missing me choice req (some t) b = replied (b, err_topic_already_exists)
    create_missing me choice req none b =
        build_partitions choice.brokers choice.moves req.topic req.num_partitions
          req.replication_factor
        >>= λ (ps, code).
            if int_eq code err_none
            then register_all me choice.told req.topic ps b
            else replied (b, code)

    -- createTopic
    unfoldable pub create_topic : ℤ → Choices → CreateTopicRequest → Broker → Handled (Broker × ℤ)
    unfolding create_missing
    create_topic me choice req b =
        create_missing me choice req (get_topic db req.topic b.cluster.store).1 b
