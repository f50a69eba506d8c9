-- ===== src/Fsm/Spec.antt =====
-- What jocko/fsm/fsm.go promises: four maps from keys to rows and an index for each table, with no
-- transactions, tables or index rows.
pub mod Refines
use jocko.Common.{ℕ, Bool, Option, none, some, List, [], ◌∷◌, Str, if◌then◌else◌}
use jocko.Common.Int.{ℤ}
use jocko.Common.Eq.{Eq, str_Eq, int_Eq, pair_Eq}
use jocko.Fsm.Memdb.{MemTable}
use jocko.Fsm.Structs.{RaftIndex, Node, Topic, Partition, Group}
use jocko.Fsm.Store.{
  Database, Store, TableName, table_Eq, nodes, topics, partitions, groups, next_index,
  partition_key, with_config, max_index,
}
use jocko.Fsm.Apply.{
  Message, register_node, deregister_node, register_topic, deregister_topic, register_partition,
  deregister_partition, register_group,
}
use mathlib.Core.Option

pub record View : Type 0 where
  pub index : TableName → ℕ
  pub node : ℤ → Option Node
  pub topic : Str → Option Topic
  pub partition : Str × ℤ → Option Partition
  pub group : Str → Option Group

-- The map `f` with `a` at `k`.
abbrev pub put : {K A : Type 0} → ⦃e : Eq K⦄ → K → A → (K → A) → K → A
put ⦃e⦄ k a f k' = if e.beq k k' then a else f k'

-- What the store shows to its readers.
abbrev pub view : (db : Database) → Store db → View
view db s = record {
  index = λ t. max_index db t s;
  node = λ k. db.node.first k s.node;
  topic = λ k. db.topic.first k s.topic;
  partition = λ k. db.partition.first k s.partition;
  group = λ k. db.group.first k s.group;
}

-- The row at `k` goes, and the index of its table changes when there was one.
abbrev pub remove_node : ℕ → ℤ → Option Node → View → View
remove_node idx k none w = w
remove_node idx k (some n) w = record w { node = put k none w.node; index = put nodes idx w.index }

abbrev pub remove_topic : ℕ → Str → Option Topic → View → View
remove_topic idx k none w = w
remove_topic idx k (some t) w = record w {
  topic = put k none w.topic;
  index = put topics idx w.index;
}

abbrev pub remove_partition : ℕ → Str × ℤ → Option Partition → View → View
remove_partition idx k none w = w
remove_partition idx k (some p) w = record w {
  partition = put k none w.partition;
  index = put partitions idx w.index;
}

abbrev pub write_topic : ℕ → Str → Topic → View → View
write_topic idx k t w = record w {
  topic =
      put k
        (some
          (record t { raft_index = next_index (Option.map (λ u. u.raft_index) (w.topic k)) idx }))
        w.topic;
  index = put topics idx w.index;
}

-- The effect of a message. The names of topics and groups fold the letter case, and those of the
-- topics of partitions do not.
unfoldable pub step : (Str → Str) → ℕ → Message → View → View
step to_lower idx (register_node n) w = record w {
  node =
      put n.node
        (some (record n {
          raft_index = next_index (Option.map (λ m. m.raft_index) (w.node n.node)) idx;
        }))
        w.node;
  index = put nodes idx w.index;
}
step to_lower idx (deregister_node n) w = remove_node idx n.node (w.node n.node) w
step to_lower idx (register_topic t) w =
    write_topic idx (to_lower t.topic) (record t { config = with_config t.config }) w
step to_lower idx (deregister_topic t) w =
    remove_topic idx (to_lower t.topic) (w.topic (to_lower t.topic)) w
step to_lower idx (register_partition p) w = record w {
  partition =
      put (partition_key p)
        (some (record p {
          raft_index =
              next_index (Option.map (λ u. u.raft_index) (w.partition (partition_key p))) idx;
        }))
        w.partition;
  index = put partitions idx w.index;
}
step to_lower idx (deregister_partition p) w =
    remove_partition idx (partition_key p) (w.partition (partition_key p)) w
step to_lower idx (register_group g) w = record w {
  group =
      put (to_lower g.group)
        (some (record g {
          raft_index = next_index (Option.map (λ u. u.raft_index) (w.group (to_lower g.group))) idx;
        }))
        w.group;
  index = put groups idx w.index;
}
