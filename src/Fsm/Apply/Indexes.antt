-- ===== src/Fsm/Apply/Indexes.antt =====
-- FSM.Apply keeps the table of indexes and the stamps of the rows, whatever the log holds.
use jocko.Common.{ℕ, ◌≤◌, ◌≡◌, refl, List, [], ◌∷◌, Option, none, some}
use jocko.Fsm.Store.{Database, Store, commit, new_store, with_config}
use jocko.Fsm.Store.{
  ensure_node_txn, ensure_node, delete_node, ensure_topic_txn, ensure_topic, delete_topic,
  ensure_partition_txn, ensure_partition, delete_partition, ensure_group_txn, ensure_group,
  delete_node_found, delete_topic_found, delete_partition_found,
}
use jocko.Fsm.Apply.{
  Message, register_node, deregister_node, register_topic, deregister_topic, register_partition,
  deregister_partition, register_group, apply_message, replay,
}
use jocko.Fsm.Store.Indexes.{IsIndexed, IsIndexed-later, new_store-IsIndexed}
use jocko.Fsm.Store.Keeps.{
  ensure_node_txn-IsIndexed, delete_node_found-IsIndexed, ensure_topic_txn-IsIndexed,
  delete_topic_found-IsIndexed, ensure_partition_txn-IsIndexed, delete_partition_found-IsIndexed,
  ensure_group_txn-IsIndexed,
}

-- The indexes of a log do not decrease, from `last` on.
unfoldable pub IsOrdered : ℕ → List (ℕ × Message) → Type 0
IsOrdered last [] = Unit
IsOrdered last ((idx, m) ∷ log) = (last ≤ idx) × IsOrdered idx log

-- The index of the last entry of a log.
unfoldable pub last_index : ℕ → List (ℕ × Message) → ℕ
last_index last [] = last
last_index last ((idx, m) ∷ log) = last_index idx log

module _ (db : Database) where
  -- A transaction that fails is aborted and leaves the store.
  commit-IsIndexed :
      (o : Option (Store db)) (s : Store db) (last idx : ℕ)
      → last ≤ idx
      → IsIndexed db s last
      → ((s' : Store db) → o ≡ some s' → IsIndexed db s' idx)
      → IsIndexed db (commit db o s).0 idx
  commit-IsIndexed none s last idx le h new = IsIndexed-later db s last idx le h
  commit-IsIndexed (some s') s last idx le h new = new s' refl

  -- Every message that Apply carries out, failing or not, keeps the indexes.
  pub apply_message-IsIndexed :
      (idx last : ℕ) (m : Message) (s : Store db)
      → last ≤ idx
      → IsIndexed db s last
      → IsIndexed db (apply_message db idx m s).0 idx
  unfolding apply_message ensure_node delete_node ensure_topic delete_topic ensure_partition
      delete_partition ensure_group
  apply_message-IsIndexed idx last (register_node v) s le h =
      commit-IsIndexed (ensure_node_txn db idx v s) s last idx le h
        (λ s' e. ensure_node_txn-IsIndexed db idx last v s s' le h e)
  apply_message-IsIndexed idx last (deregister_node v) s le h =
      commit-IsIndexed (delete_node_found db idx (db.node.first v.node s.node) s) s last idx le h
        (λ s' e. delete_node_found-IsIndexed db idx last (db.node.first v.node s.node) s s' le h e)
  apply_message-IsIndexed idx last (register_topic v) s le h =
      commit-IsIndexed (ensure_topic_txn db idx (record v { config = with_config v.config }) s) s
        last idx le h
        (λ s' e.
          ensure_topic_txn-IsIndexed db idx last (record v { config = with_config v.config }) s s'
            le h e)
  apply_message-IsIndexed idx last (deregister_topic v) s le h =
      commit-IsIndexed (delete_topic_found db idx (db.topic.first (db.to_lower v.topic) s.topic) s)
        s last idx le h
        (λ s' e.
          delete_topic_found-IsIndexed db idx last (db.topic.first (db.to_lower v.topic) s.topic) s
            s' le h e)
  apply_message-IsIndexed idx last (register_partition v) s le h =
      commit-IsIndexed (ensure_partition_txn db idx v s) s last idx le h
        (λ s' e. ensure_partition_txn-IsIndexed db idx last v s s' le h e)
  apply_message-IsIndexed idx last (deregister_partition v) s le h =
      commit-IsIndexed
        (delete_partition_found db idx (db.partition.first (v.topic, v.partition) s.partition) s) s
        last idx le h
        (λ s' e.
          delete_partition_found-IsIndexed db idx last
            (db.partition.first (v.topic, v.partition) s.partition) s s' le h e)
  apply_message-IsIndexed idx last (register_group v) s le h =
      commit-IsIndexed (ensure_group_txn db idx v s) s last idx le h
        (λ s' e. ensure_group_txn-IsIndexed db idx last v s s' le h e)

  replay_from-IsIndexed :
      (last : ℕ) (log : List (ℕ × Message)) (s : Store db)
      → IsOrdered last log
      → IsIndexed db s last
      → IsIndexed db (replay db log s) (last_index last log)
  unfolding replay IsOrdered last_index
  replay_from-IsIndexed last [] s o h = h
  replay_from-IsIndexed last ((idx, m) ∷ log) s (le, o) h =
      replay_from-IsIndexed idx log (apply_message db idx m s).0 o
        (apply_message-IsIndexed idx last m s le h)

  -- A log whose indexes do not decrease, replayed from an empty store, leaves the index of every
  -- table at most the last index of the log, and every row of a table created no later than it was
  -- changed and changed no later than the index of its table.
  pub replay-IsIndexed :
      (log : List (ℕ × Message))
      → IsOrdered 0 log
      → IsIndexed db (replay db log (new_store db)) (last_index 0 log)
  replay-IsIndexed log o = replay_from-IsIndexed 0 log (new_store db) o (new_store-IsIndexed db)
