-- ===== src/Runs/FsmRuns.antt =====
-- Runs of the replicated state, on a database of lists.
use jocko.Common.{
  ℕ, Bool, true, false, Option, none, some, List, [], ◌∷◌, codes, ◌≡◌, refl, arith, map,
  if◌then◌else◌,
}
use jocko.Common.Int.{pos}
use jocko.Fsm.Structs.{RaftIndex, Node, Topic, Partition}
use jocko.Fsm.TopicConfig.{get_value, set_value, new_topic_config, number, get}
use jocko.Fsm.TopicConfig.Settings.{get_value-set_value, reset}
use jocko.Fsm.Store.{new_store, get_topic}
use jocko.Fsm.Apply.{
  Message, register_node, deregister_node, register_topic, deregister_topic, register_partition,
  apply_message, encode, replay, apply_log-encode, apply_log, Codec,
}
use jocko.Fsm.Apply.Indexes.{IsOrdered, last_index, replay-IsIndexed}
use jocko.Fsm.Store.Indexes.{IsIndexed}
use jocko.Fsm.Spec.{view, step}
use jocko.Fsm.Spec.Refines.{apply_message-view}
use jocko.Runs.Tables.{list_db, list_table, first, without}
use jocko.Fsm.Store.{
  max_index_txn, ensure_node, ensure_node_txn, ensure_topic, ensure_topic_txn, ensure_partition,
  ensure_partition_txn, delete_node, delete_node_found, set_index,
}
use jocko.Common.{str_eq}

abbrev pub no_index : RaftIndex
no_index = record { create_index = 0; modify_index = 0 }

abbrev node_1 : Node
node_1 = record {
  id = pos 1;
  node = pos 1;
  address = codes "10.0.0.1:9092";
  check = none;
  meta = [];
  raft_index = no_index;
}

abbrev pub logs : Topic
logs = record {
  id = codes "Logs";
  topic = codes "Logs";
  partitions = (pos 0, pos 1 ∷ []) ∷ [];
  config = none;
  internal = false;
  raft_index = no_index;
}

abbrev pub logs_0 : Partition
logs_0 = record {
  id = pos 0;
  partition = pos 0;
  topic = codes "Logs";
  isr = pos 1 ∷ [];
  ar = pos 1 ∷ [];
  leader = pos 1;
  controller_epoch = pos 0;
  leader_epoch = pos 0;
  raft_index = no_index;
}

abbrev log : List (ℕ × Message)
log =
    (3, register_node node_1)
    ∷ (4, register_topic logs)
    ∷ (4, register_partition logs_0)
    ∷ (9, deregister_node node_1)
    ∷ []

-- The index of the topics, and whether the topic is found, after the log: under either letter case.
topic_index : ℕ × Bool
unfolding replay apply_message
topic_index =
    let (idx, t) = get_topic list_db (codes "lOGS") (replay list_db log (new_store list_db)) in
    (idx, is_found t)
  where
    is_found : Option Topic → Bool
    is_found none = false
    is_found (some t) = true

topic_index_test : topic_index ≡ (4, true)
unfolding topic_index max_index_txn list_table first without replay apply_message ensure_node
    ensure_node_txn ensure_topic ensure_topic_txn ensure_partition ensure_partition_txn delete_node
    delete_node_found set_index str_eq new_topic_config
topic_index_test = refl

log-IsOrdered : IsOrdered 0 log
unfolding IsOrdered
log-IsOrdered = omega arith

replay-IsIndexed_example :
    IsIndexed list_db (replay list_db log (new_store list_db)) (last_index 0 log)
replay-IsIndexed_example = replay-IsIndexed list_db log log-IsOrdered

apply_message-view_example :
    view list_db (apply_message list_db 9 (deregister_node node_1) (new_store list_db)).0 ≡ (
      if (apply_message list_db 9 (deregister_node node_1) (new_store list_db)).1
      then step list_db.to_lower 9 (deregister_node node_1) (view list_db (new_store list_db))
      else view list_db (new_store list_db))
apply_message-view_example =
    apply_message-view list_db 9 (deregister_node node_1) (new_store list_db)

get_value-set_value_example :
    get_value
      (codes "retention.ms")
      (set_value (codes "retention.ms") (number (pos 5)) new_topic_config)
    ≡ reset
        (str_eq (codes "retention.ms") (codes "retention.ms"))
        (get (codes "retention.ms") new_topic_config)
        (number (pos 5))
        (get_value (codes "retention.ms") new_topic_config)
get_value-set_value_example =
    get_value-set_value (codes "retention.ms") (codes "retention.ms") (number (pos 5))
      new_topic_config

-- A codec for node 1 and the topic: one byte stands for each.
abbrev one_byte : Codec
one_byte = record {
  pack_node = λ n. 1 ∷ [];
  pack_topic = λ t. 2 ∷ [];
  pack_partition = λ p. [];
  pack_group = λ g. [];
  unpack_node = λ buf. some node_1;
  unpack_topic = λ buf. some logs;
  unpack_partition = λ buf. none;
  unpack_group = λ buf. none;
}

abbrev short_log : List (ℕ × Message)
short_log =
    (3, register_node node_1)
    ∷ (4, register_topic logs)
    ∷ (8, deregister_topic logs)
    ∷ (9, deregister_node node_1)
    ∷ []

apply_log-encode_example :
    apply_log list_db one_byte
      (map (λ entry. (entry.0, encode one_byte entry.1)) short_log)
      (new_store list_db)
    ≡ some (replay list_db short_log (new_store list_db))
apply_log-encode_example =
    apply_log-encode list_db one_byte short_log (new_store list_db)
      (refl, (refl, (refl, (refl, tt))))
