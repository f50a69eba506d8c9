-- ===== src/Fsm/Store.antt =====
-- jocko/fsm/fsm.go: the store, one function for each operation. Tracing spans and logs are left out.
mod Rows
pub mod Indexes
pub mod Keeps
use jocko.Common.{
  ℕ, ◌+◌, Bool, true, false, Option, none, some, List, [], ◌∷◌, Str, ltb, ◌==◌, ◌≡◌, refl, ◌↔◌,
  if◌then◌else◌,
}
use jocko.Common.Int.{ℤ}
use jocko.Common.Eq.{Eq, str_Eq, int_Eq, pair_Eq, int_eq}
use jocko.Fsm.Memdb.{MemTable}
use mathlib.Core.Option
use jocko.Fsm.TopicConfig.{TopicConfig, new_topic_config}
use jocko.Fsm.Structs.{RaftIndex, Node, Topic, Partition, Group}
pub use jocko.Fsm.Tables.{
  TableName, nodes, topics, partitions, groups, table_eq, table_eq_iff, table_Eq, IndexEntry,
  partition_key, Database, next_index, ◌>>=◌, >>=-eq-some, with_config,
}

module _ (db : Database) where
  pub record Store : Type 0 where
    pub index : db.index.Rows
    pub node : db.node.Rows
    pub topic : db.topic.Rows
    pub partition : db.partition.Rows
    pub group : db.group.Rows

  -- NewStore
  abbrev pub new_store : Store
  new_store = record {
    index = db.index.empty;
    node = db.node.empty;
    topic = db.topic.empty;
    partition = db.partition.empty;
    group = db.group.empty;
  }

  -- tx.Commit() after a transaction that succeeded; a deferred tx.Abort() drops the others.
  abbrev pub commit : Option Store → Store → Store × Bool
  commit none s = (s, false)
  commit (some s') s = (s', true)

  abbrev pub entry_value : Option IndexEntry → ℕ
  entry_value none = 0
  entry_value (some e) = e.value

  -- maxIndexTxn for a list of tables.
  unfoldable pub max_index_txn : Store → List TableName → ℕ → ℕ
  max_index_txn s [] last = last
  max_index_txn s (t ∷ ts) last =
      let v = entry_value (db.index.first t s.index) in
      max_index_txn s ts (if ltb last v then v else last)

  abbrev pub max_index : TableName → Store → ℕ
  max_index t s = max_index_txn s (t ∷ []) 0

  -- tx.Insert("index", &IndexEntry{table, idx})
  unfoldable pub set_index : TableName → ℕ → Store → Option Store
  set_index t idx s = do
    rows ← db.index.insert (record { key = t; value = idx }) s.index
    some (record s { index = rows })

  -- Nodes.
  unfoldable pub ensure_node_txn : ℕ → Node → Store → Option Store
  unfolding set_index
  ensure_node_txn idx n s = do
    let stamped = record n {
      raft_index = next_index (Option.map (λ m. m.raft_index) (db.node.first n.node s.node)) idx;
    }
    rows ← db.node.insert stamped s.node
    set_index nodes idx (record s { node = rows })

  unfoldable pub ensure_node : ℕ → Node → Store → Store × Bool
  unfolding ensure_node_txn
  ensure_node idx n s = commit (ensure_node_txn idx n s) s

  -- The inner ensureRegistration, which writes only a node that is not there.
  unfoldable pub ensure_registration_txn : ℕ → Node → Store → Option Store
  unfolding ensure_node_txn
  ensure_registration_txn idx n s = elim (db.node.first n.node s.node) [
    | none ↦ ensure_node_txn idx n s
    | some m ↦ some s
  ]

  unfoldable pub ensure_registration : ℕ → Node → Store → Store × Bool
  unfolding ensure_registration_txn
  ensure_registration idx n s = commit (ensure_registration_txn idx n s) s

  unfoldable pub delete_node_found : ℕ → Option Node → Store → Option Store
  unfolding set_index
  delete_node_found idx none s = some s
  delete_node_found idx (some n) s = do
    rows ← db.node.delete n s.node
    set_index nodes idx (record s { node = rows })

  unfoldable pub delete_node : ℕ → ℤ → Store → Store × Bool
  unfolding delete_node_found
  delete_node idx id s = commit (delete_node_found idx (db.node.first id s.node) s) s

  abbrev pub get_node : ℤ → Store → ℕ × Option Node
  get_node id s = (max_index nodes s, db.node.first id s.node)

  abbrev pub get_nodes : Store → ℕ × List Node
  get_nodes s = (max_index nodes s, db.node.all s.node)

  -- Topics.
  unfoldable pub ensure_topic_txn : ℕ → Topic → Store → Option Store
  unfolding set_index
  ensure_topic_txn idx t s = do
    let found = db.topic.first (db.to_lower t.topic) s.topic
    let stamped = record t { raft_index = next_index (Option.map (λ u. u.raft_index) found) idx }
    rows ← db.topic.insert stamped s.topic
    set_index topics idx (record s { topic = rows })

  -- EnsureTopic gives a topic with no configuration the default one.
  unfoldable pub ensure_topic : ℕ → Topic → Store → Store × Bool
  unfolding ensure_topic_txn
  ensure_topic idx t s =
      commit (ensure_topic_txn idx (record t { config = with_config t.config }) s) s

  unfoldable pub delete_topic_found : ℕ → Option Topic → Store → Option Store
  unfolding set_index
  delete_topic_found idx none s = some s
  delete_topic_found idx (some t) s = do
    rows ← db.topic.delete t s.topic
    set_index topics idx (record s { topic = rows })

  unfoldable pub delete_topic : ℕ → Str → Store → Store × Bool
  unfolding delete_topic_found
  delete_topic idx id s =
      commit (delete_topic_found idx (db.topic.first (db.to_lower id) s.topic) s) s

  abbrev pub get_topic : Str → Store → ℕ × Option Topic
  get_topic id s = (max_index topics s, db.topic.first (db.to_lower id) s.topic)

  abbrev pub get_topics : Store → ℕ × List Topic
  get_topics s = (max_index topics s, db.topic.all s.topic)

  -- Groups.
  unfoldable pub ensure_group_txn : ℕ → Group → Store → Option Store
  unfolding set_index
  ensure_group_txn idx g s = do
    let found = db.group.first (db.to_lower g.group) s.group
    let stamped = record g { raft_index = next_index (Option.map (λ u. u.raft_index) found) idx }
    rows ← db.group.insert stamped s.group
    set_index groups idx (record s { group = rows })

  unfoldable pub ensure_group : ℕ → Group → Store → Store × Bool
  unfolding ensure_group_txn
  ensure_group idx g s = commit (ensure_group_txn idx g s) s

  unfoldable pub delete_group_found : ℕ → Option Group → Store → Option Store
  unfolding set_index
  delete_group_found idx none s = some s
  delete_group_found idx (some g) s = do
    rows ← db.group.delete g s.group
    set_index groups idx (record s { group = rows })

  unfoldable pub delete_group : ℕ → Str → Store → Store × Bool
  unfolding delete_group_found
  delete_group idx id s =
      commit (delete_group_found idx (db.group.first (db.to_lower id) s.group) s) s

  abbrev pub get_group : Str → Store → ℕ × Option Group
  get_group id s = (max_index groups s, db.group.first (db.to_lower id) s.group)

  abbrev pub get_groups : Store → ℕ × List Group
  get_groups s = (max_index groups s, db.group.all s.group)

  -- The iterator of the index `coordinator`.
  unfoldable pub coordinated_by : ℤ → List Group → List Group
  coordinated_by coordinator [] = []
  coordinated_by coordinator (g ∷ gs) =
      let rest = coordinated_by coordinator gs in
      if int_eq g.coordinator coordinator then g ∷ rest else rest

  abbrev pub get_groups_by_coordinator : ℤ → Store → ℕ × List Group
  get_groups_by_coordinator coordinator s =
      (max_index groups s, coordinated_by coordinator (db.group.all s.group))

  -- Partitions; their topic is compared as it is written.
  unfoldable pub ensure_partition_txn : ℕ → Partition → Store → Option Store
  unfolding set_index
  ensure_partition_txn idx p s = do
    let found = db.partition.first (partition_key p) s.partition
    let stamped = record p { raft_index = next_index (Option.map (λ u. u.raft_index) found) idx }
    rows ← db.partition.insert stamped s.partition
    set_index partitions idx (record s { partition = rows })

  unfoldable pub ensure_partition : ℕ → Partition → Store → Store × Bool
  unfolding ensure_partition_txn
  ensure_partition idx p s = commit (ensure_partition_txn idx p s) s

  unfoldable pub delete_partition_found : ℕ → Option Partition → Store → Option Store
  unfolding set_index
  delete_partition_found idx none s = some s
  delete_partition_found idx (some p) s = do
    rows ← db.partition.delete p s.partition
    set_index partitions idx (record s { partition = rows })

  unfoldable pub delete_partition : ℕ → Str → ℤ → Store → Store × Bool
  unfolding delete_partition_found
  delete_partition idx topic id s =
      commit (delete_partition_found idx (db.partition.first (topic, id) s.partition) s) s

  abbrev pub get_partition : Str → ℤ → Store → ℕ × Option Partition
  get_partition topic id s = (max_index partitions s, db.partition.first (topic, id) s.partition)

  abbrev pub get_partitions : Store → ℕ × List Partition
  get_partitions s = (max_index partitions s, db.partition.all s.partition)

  -- The iterator of the index `leader`.
  unfoldable pub led_by : ℤ → List Partition → List Partition
  led_by leader [] = []
  led_by leader (p ∷ ps) =
      let rest = led_by leader ps in if int_eq p.leader leader then p ∷ rest else rest

  abbrev pub partitions_by_leader : ℤ → Store → ℕ × List Partition
  partitions_by_leader leader s =
      (max_index partitions s, led_by leader (db.partition.all s.partition))
