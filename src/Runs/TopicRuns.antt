-- ===== src/Runs/TopicRuns.antt =====
-- Runs of the handlers of topics and replicas, on a database of lists.
use jocko.Common.{
  ℕ, zero, suc, ◌+◌, Bool, true, false, Option, none, some, List, [], ◌∷◌, map, All, Str, codes,
  str_eq, ◌==◌, ◌≡◌, refl, arith, if◌then◌else◌,
}
use jocko.Common.Int.{ℤ, pos, negsuc}
use jocko.Common.Eq.{str_Eq, pair_Eq}
use jocko.Fsm.Structs.{Topic, Partition}
use jocko.Fsm.TopicConfig.{new_topic_config, get, get_value}
use jocko.Fsm.Apply.{apply_message, register_topic}
use jocko.Fsm.Store.{
  Store, new_store, get_topic, ensure_topic, ensure_topic_txn, set_index, delete_topic,
  delete_topic_found, commit,
}
use jocko.Protocol.Message.LeaderAndIsr.{LeaderAndIsrRequest}
use jocko.Protocol.Message.Replicas.{LeaderAndIsrResponse}
use jocko.Protocol.Message.Topics.{DeleteTopicsRequest}
use jocko.Broker.Errors.{err_none}
use jocko.Broker.Handled.{replied}
use jocko.Broker.Raft.{RaftResult, applied, Cluster}
use jocko.Broker.Placement.{rounds, build_partitions}
use jocko.Broker.Placement.Rings.{Distinct}
use jocko.Broker.Placement.Places.{followers, IsPlaced, ids, build_partitions-IsPlaced}
use jocko.Broker.Replicas.{Local, Lookup, contains, handle_leader_and_isr}
use jocko.Broker.Replicas.Roles.{Replies, HasPolicy}
use jocko.Broker.Replicas.Answers.{
  Registers, last_state, answer_name, state_name, handle_leader_and_isr-Registers,
}
use jocko.Broker.Topics.{
  Broker, Choices, Clock, CreateTopicRequest, delete, new_topic, create_topic, roles_request,
}
use jocko.Broker.Topics.Handlers.{topic_error, handle_delete_topics}
use jocko.Broker.Topics.Creates.{replayed, topic_messages, create_topic-replayed}
use jocko.Broker.Topics.Deletes.{handle_delete_topics-gone}
use jocko.Runs.Tables.{list_db, list_table, first, without}
use jocko.Runs.FsmRuns.{logs, logs_0}

-- Three brokers, of which the third cannot be reached. A log is the number of its records.
abbrev here : Local
here = record {
  Log = ℕ;
  new_log = λ id policy. some 0;
  newest_offset = λ log. pos log;
  truncate = λ offset log. some log;
  knows = λ id. true;
  dials = two_of_three;
  accepts = λ id. true;
}
  where
    two_of_three : ℤ → Bool
    two_of_three (pos n) = if n == 3 then false else true
    two_of_three (negsuc n) = false

abbrev brokers : List ℤ
brokers = pos 1 ∷ pos 2 ∷ pos 3 ∷ []

brokers-Distinct : Distinct brokers
brokers-Distinct = ((λ e. cc, (λ e. cc, tt)), ((λ e. cc, tt), (tt, tt)))

brokers-known : All (λ id. contains brokers id ≡ true) brokers
unfolding contains
brokers-known = (refl, (refl, (refl, tt)))

build_partitions-IsPlaced_example :
    (ps : List Partition) × (build_partitions brokers (λ n. n) (codes "logs") (pos 3) (pos 2)
      ≡ replied (ps, err_none))
    × (map (λ p. p.id) ps ≡ ids 0 (rounds (pos 3)))
    × All (IsPlaced (λ id. contains brokers id ≡ true) (codes "logs") (followers (pos 2))) ps
build_partitions-IsPlaced_example =
    build_partitions-IsPlaced (λ id. contains brokers id ≡ true) brokers (λ n. n) (codes "logs")
      (pos 3) (pos 2) (omega arith) brokers-Distinct brokers-known refl (omega arith) (omega arith)
      (omega arith)

abbrev start : Cluster list_db
start = record { store = new_store list_db; calls = 0 }

abbrev logs_request : LeaderAndIsrRequest
logs_request = roles_request (pos 1) (logs_0 ∷ [])

-- The store with the topic of the request.
abbrev with_logs : Store list_db
with_logs = (apply_message list_db 1 (register_topic logs) start.store).0

logs-HasPolicy : HasPolicy (get_topic list_db (codes "Logs") with_logs).1
unfolding apply_message ensure_topic ensure_topic_txn set_index list_table first without
    new_topic_config get_value get str_eq
logs-HasPolicy = (codes "delete", refl)

handle_leader_and_isr-Registers_example :
    (last : Lookup here) × (res : LeaderAndIsrResponse) × (handle_leader_and_isr list_db here
        (pos 1)
        with_logs
        logs_request
        []
      ≡ replied (last, res))
    × (res.error_code ≡ err_none)
    × (map answer_name res.partitions ≡ map state_name logs_request.partition_states)
    × ((k : Str × ℤ)
        → Registers list_db here k (last_state k logs_request.partition_states) [] last)
handle_leader_and_isr-Registers_example =
    handle_leader_and_isr-Registers list_db here (pos 1) with_logs logs_request []
      (logs-HasPolicy, tt)

abbrev index : ℕ → ℕ
index n = n + 1

abbrev outcomes : ℕ → RaftResult
outcomes n = applied (n + 1)

abbrev choice : Choices
choice = record { brokers = brokers; told = brokers; moves = λ n. n + 1 }

abbrev logs_create : CreateTopicRequest
logs_create = record { topic = codes "logs"; num_partitions = pos 2; replication_factor = pos 2 }

abbrev fresh : Broker list_db here
fresh = record { cluster = start; lookup = []; background = [] }

logs-written :
    (ps : List Partition)
    → (ensure_topic list_db 1 (new_topic (codes "logs") ps) start.store).1 ≡ true
unfolding ensure_topic ensure_topic_txn set_index list_table
logs-written ps = refl

create_topic-replayed_example :
    (ps : List Partition) × (map (λ p. p.id) ps ≡ ids 0 (rounds logs_create.num_partitions))
    × All
        (IsPlaced
          (λ id. contains brokers id ≡ true)
          logs_create.topic
          (followers logs_create.replication_factor))
        ps
    × Replies
        (λ a.
          a.0.cluster.store
          ≡ replayed list_db here outcomes index
              (λ n. refl)
              (topic_messages list_db here outcomes index (λ n. refl) logs_create.topic ps)
              fresh.cluster)
        (create_topic list_db here outcomes (pos 1) choice logs_create fresh)
unfolding list_table first
create_topic-replayed_example =
    create_topic-replayed list_db here outcomes index (λ n. refl) (λ id. contains brokers id ≡ true)
      (pos 1) choice logs_create fresh refl (omega arith) brokers-Distinct brokers-known refl
      (omega arith) (omega arith) (omega arith) logs-written

abbrev logs_name : Str
logs_name = codes "logs"

abbrev delete_request : ℤ → DeleteTopicsRequest
delete_request timeout = record {
  api_version = pos 0;
  topics = codes "Logs" ∷ [];
  timeout = timeout;
}

-- A broker that left the deletion of another topic behind, which ends before the first round.
abbrev busy : Broker list_db here
busy = record {
  cluster = start;
  lookup = [];
  background = record { job = delete (codes "old"); closed = false } ∷ [];
}

abbrev clocks : ℕ → Clock
clocks zero = record { finished = 0 ∷ []; late = false }
clocks (suc n) = record { finished = []; late = false }

in_time : (n : ℕ) → (clocks n).late ≡ false
in_time zero = refl
in_time (suc n) = refl

list-deletes :
    (idx : ℕ) (name : Str) (s : Store list_db) → (delete_topic list_db idx name s).1 ≡ true
unfolding delete_topic delete_topic_found set_index list_table
list-deletes idx name s = go (list_db.topic.first (list_db.to_lower name) s.topic)
  where
    go :
        (found : Option Topic)
        → (commit list_db (delete_topic_found list_db idx found s) s).1 ≡ true
    go none = refl
    go (some t) = refl

handle_delete_topics-gone_example :
    Replies
      (λ a.
        All
          (λ name. (get_topic list_db name a.0.cluster.store).1 ≡ none)
          (delete_request (pos 5)).topics
        × (a.1
            ≡ map
                (λ name. topic_error list_db here outcomes name err_none)
                (delete_request (pos 5)).topics))
      (handle_delete_topics list_db here outcomes (pos 1) true clocks (delete_request (pos 5)) busy)
handle_delete_topics-gone_example =
    handle_delete_topics-gone list_db here outcomes (pos 1) index clocks (delete_request (pos 5))
      busy refl ((refl, (codes "old", refl)), tt) in_time (λ n. refl) list-deletes
