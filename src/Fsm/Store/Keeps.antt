-- ===== src/Fsm/Store/Keeps.antt =====
-- Every operation of the store keeps the table of indexes and the stamps of the rows.
use jocko.Common.{ℕ, ◌≤◌, ◌≡◌, refl, subst, Option, none, some, arith}
use jocko.Fsm.Structs.{Node, Topic, Partition, Group}
use jocko.Fsm.Store.{Database, Store, nodes, topics, partitions, groups}
use jocko.Fsm.Store.{
  ensure_node_txn, ensure_topic_txn, ensure_partition_txn, ensure_group_txn, delete_node_found,
  delete_topic_found, delete_group_found, delete_partition_found, max_index, max_index_txn,
}
use mathlib.Core.Option.{some-injective}
use jocko.Fsm.Store.{>>=-eq-some}
use jocko.Fsm.Store.Rows.{AreStamped-later, AreStamped-insert, AreStamped-delete}
use jocko.Fsm.Store.Indexes.{IsIndexed, IsIndexed-later, set_index-IsIndexed}

module _ (db : Database) where
  pub ensure_node_txn-IsIndexed :
      (idx last : ℕ) (v : Node) (s s' : Store db)
      → last ≤ idx
      → IsIndexed db s last
      → ensure_node_txn db idx v s ≡ some s'
      → IsIndexed db s' idx
  unfolding ensure_node_txn max_index_txn
  ensure_node_txn-IsIndexed idx last v s s' le h e =
      let (rows, ins, rest) = >>=-eq-some (db.node.insert _ s.node) _ e in
      set_index-IsIndexed db nodes idx last (record s { node = rows }) s' rest le h.bound
        (AreStamped-insert ⦃e = _⦄ db.node _ _ s.node rows (max_index db nodes s) idx
          (omega (arith, h.bound nodes)) refl ins h.node)
        h.topic h.partition h.group

  pub delete_node_found-IsIndexed :
      (idx last : ℕ) (found : Option Node) (s s' : Store db)
      → last ≤ idx
      → IsIndexed db s last
      → delete_node_found db idx found s ≡ some s'
      → IsIndexed db s' idx
  unfolding delete_node_found max_index_txn
  delete_node_found-IsIndexed idx last none s s' le h e =
      subst (λ s''. IsIndexed db s'' idx) (some-injective _ _ e)
        (IsIndexed-later db s last idx le h)
  delete_node_found-IsIndexed idx last (some v) s s' le h e =
      let (rows, del, rest) = >>=-eq-some (db.node.delete v s.node) _ e in
      set_index-IsIndexed db nodes idx last (record s { node = rows }) s' rest le h.bound
        (AreStamped-later ⦃e = _⦄ db.node _ rows (max_index db nodes s) idx
          (omega (arith, h.bound nodes))
          (AreStamped-delete ⦃e = _⦄ db.node _ v s.node rows (max_index db nodes s) del h.node))
        h.topic h.partition h.group

  pub ensure_topic_txn-IsIndexed :
      (idx last : ℕ) (v : Topic) (s s' : Store db)
      → last ≤ idx
      → IsIndexed db s last
      → ensure_topic_txn db idx v s ≡ some s'
      → IsIndexed db s' idx
  unfolding ensure_topic_txn max_index_txn
  ensure_topic_txn-IsIndexed idx last v s s' le h e =
      let (rows, ins, rest) = >>=-eq-some (db.topic.insert _ s.topic) _ e in
      set_index-IsIndexed db topics idx last (record s { topic = rows }) s' rest le h.bound h.node
        (AreStamped-insert ⦃e = _⦄ db.topic _ _ s.topic rows (max_index db topics s) idx
          (omega (arith, h.bound topics)) refl ins h.topic)
        h.partition h.group

  pub delete_topic_found-IsIndexed :
      (idx last : ℕ) (found : Option Topic) (s s' : Store db)
      → last ≤ idx
      → IsIndexed db s last
      → delete_topic_found db idx found s ≡ some s'
      → IsIndexed db s' idx
  unfolding delete_topic_found max_index_txn
  delete_topic_found-IsIndexed idx last none s s' le h e =
      subst (λ s''. IsIndexed db s'' idx) (some-injective _ _ e)
        (IsIndexed-later db s last idx le h)
  delete_topic_found-IsIndexed idx last (some v) s s' le h e =
      let (rows, del, rest) = >>=-eq-some (db.topic.delete v s.topic) _ e in
      set_index-IsIndexed db topics idx last (record s { topic = rows }) s' rest le h.bound h.node
        (AreStamped-later ⦃e = _⦄ db.topic _ rows (max_index db topics s) idx
          (omega (arith, h.bound topics))
          (AreStamped-delete ⦃e = _⦄ db.topic _ v s.topic rows (max_index db topics s) del h.topic))
        h.partition h.group

  pub ensure_partition_txn-IsIndexed :
      (idx last : ℕ) (v : Partition) (s s' : Store db)
      → last ≤ idx
      → IsIndexed db s last
      → ensure_partition_txn db idx v s ≡ some s'
      → IsIndexed db s' idx
  unfolding ensure_partition_txn max_index_txn
  ensure_partition_txn-IsIndexed idx last v s s' le h e =
      let (rows, ins, rest) = >>=-eq-some (db.partition.insert _ s.partition) _ e in
      set_index-IsIndexed db partitions idx last (record s { partition = rows }) s' rest le h.bound
        h.node h.topic
        (AreStamped-insert ⦃e = _⦄ db.partition _ _ s.partition rows (max_index db partitions s) idx
          (omega (arith, h.bound partitions)) refl ins h.partition)
        h.group

  pub delete_partition_found-IsIndexed :
      (idx last : ℕ) (found : Option Partition) (s s' : Store db)
      → last ≤ idx
      → IsIndexed db s last
      → delete_partition_found db idx found s ≡ some s'
      → IsIndexed db s' idx
  unfolding delete_partition_found max_index_txn
  delete_partition_found-IsIndexed idx last none s s' le h e =
      subst (λ s''. IsIndexed db s'' idx) (some-injective _ _ e)
        (IsIndexed-later db s last idx le h)
  delete_partition_found-IsIndexed idx last (some v) s s' le h e =
      let (rows, del, rest) = >>=-eq-some (db.partition.delete v s.partition) _ e in
      set_index-IsIndexed db partitions idx last (record s { partition = rows }) s' rest le h.bound
        h.node h.topic
        (AreStamped-later ⦃e = _⦄ db.partition _ rows (max_index db partitions s) idx
          (omega (arith, h.bound partitions))
          (AreStamped-delete ⦃e = _⦄ db.partition _ v s.partition rows (max_index db partitions s)
            del h.partition))
        h.group

  pub ensure_group_txn-IsIndexed :
      (idx last : ℕ) (v : Group) (s s' : Store db)
      → last ≤ idx
      → IsIndexed db s last
      → ensure_group_txn db idx v s ≡ some s'
      → IsIndexed db s' idx
  unfolding ensure_group_txn max_index_txn
  ensure_group_txn-IsIndexed idx last v s s' le h e =
      let (rows, ins, rest) = >>=-eq-some (db.group.insert _ s.group) _ e in
      set_index-IsIndexed db groups idx last (record s { group = rows }) s' rest le h.bound h.node
        h.topic h.partition
        (AreStamped-insert ⦃e = _⦄ db.group _ _ s.group rows (max_index db groups s) idx
          (omega (arith, h.bound groups)) refl ins h.group)

  pub delete_group_found-IsIndexed :
      (idx last : ℕ) (found : Option Group) (s s' : Store db)
      → last ≤ idx
      → IsIndexed db s last
      → delete_group_found db idx found s ≡ some s'
      → IsIndexed db s' idx
  unfolding delete_group_found max_index_txn
  delete_group_found-IsIndexed idx last none s s' le h e =
      subst (λ s''. IsIndexed db s'' idx) (some-injective _ _ e)
        (IsIndexed-later db s last idx le h)
  delete_group_found-IsIndexed idx last (some v) s s' le h e =
      let (rows, del, rest) = >>=-eq-some (db.group.delete v s.group) _ e in
      set_index-IsIndexed db groups idx last (record s { group = rows }) s' rest le h.bound h.node
        h.topic h.partition
        (AreStamped-later ⦃e = _⦄ db.group _ rows (max_index db groups s) idx
          (omega (arith, h.bound groups))
          (AreStamped-delete ⦃e = _⦄ db.group _ v s.group rows (max_index db groups s) del h.group))
