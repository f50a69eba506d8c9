-- ===== src/Fsm/Spec/Refines.antt =====
-- FSM.Apply implements the step of the maps.
use jocko.Common.Int.{ℤ}
use jocko.Common.{Str}
use jocko.Common.{ℕ, ◌≡◌, refl, sym, ap, subst, ◌∙◌, Option, none, some, if◌then◌else◌}
use jocko.Common.Eq.{Eq}
use jocko.Fsm.Memdb.{MemTable}
use jocko.Fsm.Structs.{Node, Topic, Partition, Group}
use jocko.Fsm.Store.{
  Database, Store, TableName, table_Eq, nodes, topics, partitions, groups, set_index, commit,
  >>=-eq-some, with_config, partition_key, max_index, max_index_txn,
}
use jocko.Fsm.Store.{
  ensure_node_txn, ensure_node, delete_node, ensure_topic_txn, ensure_topic, delete_topic,
  ensure_partition_txn, ensure_partition, delete_partition, ensure_group_txn, ensure_group,
  delete_node_found, delete_topic_found, delete_partition_found,
}
use jocko.Fsm.Store.Indexes.{max_index-set_index}
use jocko.Fsm.Apply.{
  Message, register_node, deregister_node, register_topic, deregister_topic, register_partition,
  deregister_partition, register_group, apply_message,
}
use jocko.Fsm.Spec.{View, put, view, remove_node, remove_topic, remove_partition, write_topic, step}
use mathlib.Core.Path.{fun_ext}
use mathlib.Core.Option.{some-injective}

module _ {K V : Type 0} {key : V → K} ⦃e : Eq K⦄ (t : MemTable K V key) where
  insert-put :
      (v : V) (rows rows' : t.Rows)
      → t.insert v rows ≡ some rows'
      → (λ k. t.first k rows') ≡ put (key v) (some v) (λ k. t.first k rows)
  insert-put v rows rows' h = fun_ext (λ k. t.first-insert v rows rows' k h)

  -- The row found at a key is the one that its deletion removes.
  delete-put :
      (k : K) (v : V) (rows rows' : t.Rows)
      → t.first k rows ≡ some v
      → t.delete v rows ≡ some rows'
      → (λ k'. t.first k' rows') ≡ put k none (λ k'. t.first k' rows)
  delete-put k v rows rows' found h =
      subst (λ j. (λ k'. t.first k' rows') ≡ put j none (λ k'. t.first k' rows))
        (t.key-first k rows v found) (fun_ext (λ k'. t.first-delete v rows rows' k' h))

module _ (db : Database) where
  set_index-view :
      (t : TableName) (idx : ℕ) (s s' : Store db)
      → set_index db t idx s ≡ some s'
      → view db s' ≡ record (view db s) { index = put t idx (λ u. max_index db u s) }
  unfolding set_index
  set_index-view t idx s s' e =
      let (rows, ins, same) =
        >>=-eq-some (db.index.insert (record { key = t; value = idx }) s.index) _ e in
      subst (λ s''. view db s'' ≡ record (view db s) { index = put t idx (λ u. max_index db u s) })
        (some-injective _ _ same)
        (ap (λ f. record (view db s) { index = f })
          (sym (fun_ext (λ u. max_index-set_index db t idx s rows u ins))))

  ensure_node_txn-view :
      (idx : ℕ) (n : Node) (s s' : Store db)
      → ensure_node_txn db idx n s ≡ some s'
      → view db s' ≡ step db.to_lower idx (register_node n) (view db s)
  unfolding ensure_node_txn step max_index_txn
  ensure_node_txn-view idx n s s' e =
      let (rows, ins, rest) = >>=-eq-some (db.node.insert _ s.node) _ e in
      set_index-view nodes idx (record s { node = rows }) s' rest
      ∙ ap (λ f. record (view db s) { node = f; index = put nodes idx (λ u. max_index db u s) })
          (insert-put ⦃e = _⦄ db.node _ s.node rows ins)

  ensure_topic_txn-view :
      (idx : ℕ) (v : Topic) (s s' : Store db)
      → ensure_topic_txn db idx v s ≡ some s'
      → view db s' ≡ write_topic idx (db.to_lower v.topic) v (view db s)
  unfolding ensure_topic_txn step max_index_txn
  ensure_topic_txn-view idx v s s' e =
      let (rows, ins, rest) = >>=-eq-some (db.topic.insert _ s.topic) _ e in
      set_index-view topics idx (record s { topic = rows }) s' rest
      ∙ ap (λ f. record (view db s) { topic = f; index = put topics idx (λ u. max_index db u s) })
          (insert-put ⦃e = _⦄ db.topic _ s.topic rows ins)

  ensure_partition_txn-view :
      (idx : ℕ) (v : Partition) (s s' : Store db)
      → ensure_partition_txn db idx v s ≡ some s'
      → view db s' ≡ step db.to_lower idx (register_partition v) (view db s)
  unfolding ensure_partition_txn step max_index_txn
  ensure_partition_txn-view idx v s s' e =
      let (rows, ins, rest) = >>=-eq-some (db.partition.insert _ s.partition) _ e in
      set_index-view partitions idx (record s { partition = rows }) s' rest
      ∙ ap
          (λ f. record (view db s) {
            partition = f;
            index = put partitions idx (λ u. max_index db u s);
          })
          (insert-put ⦃e = _⦄ db.partition _ s.partition rows ins)

  ensure_group_txn-view :
      (idx : ℕ) (v : Group) (s s' : Store db)
      → ensure_group_txn db idx v s ≡ some s'
      → view db s' ≡ step db.to_lower idx (register_group v) (view db s)
  unfolding ensure_group_txn step max_index_txn
  ensure_group_txn-view idx v s s' e =
      let (rows, ins, rest) = >>=-eq-some (db.group.insert _ s.group) _ e in
      set_index-view groups idx (record s { group = rows }) s' rest
      ∙ ap (λ f. record (view db s) { group = f; index = put groups idx (λ u. max_index db u s) })
          (insert-put ⦃e = _⦄ db.group _ s.group rows ins)

  delete_node_found-view :
      (idx : ℕ) (k : ℤ) (found : Option Node) (s s' : Store db)
      → db.node.first k s.node ≡ found
      → delete_node_found db idx found s ≡ some s'
      → view db s' ≡ remove_node idx k found (view db s)
  unfolding delete_node_found max_index_txn
  delete_node_found-view idx k none s s' found e = ap (view db) (sym (some-injective _ _ e))
  delete_node_found-view idx k (some v) s s' found e =
      let (rows, del, rest) = >>=-eq-some (db.node.delete v s.node) _ e in
      set_index-view nodes idx (record s { node = rows }) s' rest
      ∙ ap (λ f. record (view db s) { node = f; index = put nodes idx (λ u. max_index db u s) })
          (delete-put ⦃e = _⦄ db.node k v s.node rows found del)

  delete_topic_found-view :
      (idx : ℕ) (k : Str) (found : Option Topic) (s s' : Store db)
      → db.topic.first k s.topic ≡ found
      → delete_topic_found db idx found s ≡ some s'
      → view db s' ≡ remove_topic idx k found (view db s)
  unfolding delete_topic_found max_index_txn
  delete_topic_found-view idx k none s s' found e = ap (view db) (sym (some-injective _ _ e))
  delete_topic_found-view idx k (some v) s s' found e =
      let (rows, del, rest) = >>=-eq-some (db.topic.delete v s.topic) _ e in
      set_index-view topics idx (record s { topic = rows }) s' rest
      ∙ ap (λ f. record (view db s) { topic = f; index = put topics idx (λ u. max_index db u s) })
          (delete-put ⦃e = _⦄ db.topic k v s.topic rows found del)

  delete_partition_found-view :
      (idx : ℕ) (k : Str × ℤ) (found : Option Partition) (s s' : Store db)
      → db.partition.first k s.partition ≡ found
      → delete_partition_found db idx found s ≡ some s'
      → view db s' ≡ remove_partition idx k found (view db s)
  unfolding delete_partition_found max_index_txn
  delete_partition_found-view idx k none s s' found e = ap (view db) (sym (some-injective _ _ e))
  delete_partition_found-view idx k (some v) s s' found e =
      let (rows, del, rest) = >>=-eq-some (db.partition.delete v s.partition) _ e in
      set_index-view partitions idx (record s { partition = rows }) s' rest
      ∙ ap
          (λ f. record (view db s) {
            partition = f;
            index = put partitions idx (λ u. max_index db u s);
          })
          (delete-put ⦃e = _⦄ db.partition k v s.partition rows found del)

  commit-view :
      (o : Option (Store db)) (s : Store db) (w : View)
      → ((s' : Store db) → o ≡ some s' → view db s' ≡ w)
      → view db (commit db o s).0 ≡ (if (commit db o s).1 then w else view db s)
  commit-view none s w h = refl
  commit-view (some s') s w h = h s' refl

  -- An entry of the log that Apply carries out shows on the maps as the step of its message, when the
  -- transaction of its handler succeeds; when the transaction fails, the maps are as they were.
  pub apply_message-view :
      (idx : ℕ) (m : Message) (s : Store db)
      → view db (apply_message db idx m s).0
        ≡ (if (apply_message db idx m s).1 then step db.to_lower idx m (view db s) else view db s)
  unfolding apply_message step ensure_node delete_node ensure_topic delete_topic ensure_partition
      delete_partition ensure_group
  apply_message-view idx (register_node v) s =
      commit-view (ensure_node_txn db idx v s) s _ (λ s' e. ensure_node_txn-view idx v s s' e)
  apply_message-view idx (deregister_node v) s =
      commit-view (delete_node_found db idx (db.node.first v.node s.node) s) s _
        (λ s' e. delete_node_found-view idx v.node _ s s' refl e)
  apply_message-view idx (register_topic v) s =
      commit-view (ensure_topic_txn db idx (record v { config = with_config v.config }) s) s _
        (λ s' e. ensure_topic_txn-view idx (record v { config = with_config v.config }) s s' e)
  apply_message-view idx (deregister_topic v) s =
      commit-view (delete_topic_found db idx (db.topic.first (db.to_lower v.topic) s.topic) s) s _
        (λ s' e. delete_topic_found-view idx (db.to_lower v.topic) _ s s' refl e)
  apply_message-view idx (register_partition v) s =
      commit-view (ensure_partition_txn db idx v s) s _
        (λ s' e. ensure_partition_txn-view idx v s s' e)
  apply_message-view idx (deregister_partition v) s =
      commit-view
        (delete_partition_found db idx (db.partition.first (partition_key v) s.partition) s) s _
        (λ s' e. delete_partition_found-view idx (partition_key v) _ s s' refl e)
  apply_message-view idx (register_group v) s =
      commit-view (ensure_group_txn db idx v s) s _ (λ s' e. ensure_group_txn-view idx v s s' e)
