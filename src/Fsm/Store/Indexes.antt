-- ===== src/Fsm/Store/Indexes.antt =====
-- The table of indexes and the stamps of the rows: an invariant of every operation of the store.
use jocko.Common.{ℕ, ◌≤◌, ◌≡◌, subst, some, arith, if◌then◌else◌}
use jocko.Fsm.Store.{
  Database, Store, TableName, table_eq, nodes, topics, partitions, groups, IndexEntry, entry_value,
  set_index, new_store,
}
use jocko.Fsm.Store.{max_index, max_index_txn}
use mathlib.Core.Option.{some-injective}
use jocko.Fsm.Store.{>>=-eq-some}
use jocko.Fsm.Store.Rows.{AreStamped, AreStamped-empty}

module _ (db : Database) where
  -- The index of a table is at most `last`, and bounds the stamps of its rows.
  pub record IsIndexed (s : Store db) (last : ℕ) : Type 0 where
    pub bound : (t : TableName) → max_index db t s ≤ last
    pub node : AreStamped ⦃e = _⦄ db.node (λ n. n.raft_index) s.node (max_index db nodes s)
    pub topic : AreStamped ⦃e = _⦄ db.topic (λ t. t.raft_index) s.topic (max_index db topics s)
    pub partition :
        AreStamped ⦃e = _⦄ db.partition (λ p. p.raft_index) s.partition (max_index db partitions s)
    pub group : AreStamped ⦃e = _⦄ db.group (λ g. g.raft_index) s.group (max_index db groups s)

  max_index-value :
      (t : TableName) (s : Store db) → max_index db t s ≡ entry_value db (db.index.first t s.index)
  unfolding max_index_txn
  max_index-value t s = ground arith

  -- The write of an index entry changes the index of that table alone.
  pub max_index-set_index :
      (t : TableName) (idx : ℕ) (s : Store db) (rows : db.index.Rows) (u : TableName)
      → db.index.insert (record { key = t; value = idx }) s.index ≡ some rows
      → (if table_eq t u then idx else max_index db u s)
        ≡ max_index db u (record s { index = rows })
  max_index-set_index t idx s rows u h =
      let s' : Store db = record s { index = rows } in
      let new : IndexEntry = record { key = t; value = idx } in
      ground (
        arith,
        max_index-value u s,
        max_index-value u s',
        db.index.first-insert new s.index rows u h,
      )

  -- What holds of the rows at the new indexes holds after the index is written.
  pub set_index-IsIndexed :
      (t : TableName) (idx last : ℕ) (s s' : Store db)
      → set_index db t idx s ≡ some s'
      → last ≤ idx
      → ((u : TableName) → max_index db u s ≤ last)
      → AreStamped ⦃e = _⦄ db.node
          (λ n. n.raft_index)
          s.node
          (if table_eq t nodes then idx else max_index db nodes s)
      → AreStamped ⦃e = _⦄ db.topic
          (λ n. n.raft_index)
          s.topic
          (if table_eq t topics then idx else max_index db topics s)
      → AreStamped ⦃e = _⦄ db.partition
          (λ n. n.raft_index)
          s.partition
          (if table_eq t partitions then idx else max_index db partitions s)
      → AreStamped ⦃e = _⦄ db.group
          (λ n. n.raft_index)
          s.group
          (if table_eq t groups then idx else max_index db groups s)
      → IsIndexed s' idx
  unfolding set_index
  set_index-IsIndexed t idx last s s' e le bound node topic partition group =
      let (rows, ins, same) =
        >>=-eq-some (db.index.insert (record { key = t; value = idx }) s.index) _ e in
      subst (λ s''. IsIndexed s'' idx) (some-injective _ _ same)
        (record {
          bound = λ u. below rows u ins;
          node =
              subst (AreStamped ⦃e = _⦄ db.node _ s.node)
                (max_index-set_index t idx s rows nodes ins) node;
          topic =
              subst (AreStamped ⦃e = _⦄ db.topic _ s.topic)
                (max_index-set_index t idx s rows topics ins) topic;
          partition =
              subst (AreStamped ⦃e = _⦄ db.partition _ s.partition)
                (max_index-set_index t idx s rows partitions ins) partition;
          group =
              subst (AreStamped ⦃e = _⦄ db.group _ s.group)
                (max_index-set_index t idx s rows groups ins) group;
        })
    where
      below :
          (rows : db.index.Rows) (u : TableName)
          → db.index.insert (record { key = t; value = idx }) s.index ≡ some rows
          → max_index db u (record s { index = rows }) ≤ idx
      below rows u ins = ground (arith, max_index-set_index t idx s rows u ins, bound u)

  pub IsIndexed-later : (s : Store db) (n m : ℕ) → n ≤ m → IsIndexed s n → IsIndexed s m
  IsIndexed-later s n m le h = record {
    bound = λ t. omega (arith, h.bound t);
    node = h.node;
    topic = h.topic;
    partition = h.partition;
    group = h.group;
  }

  pub new_store-IsIndexed : IsIndexed (new_store db) 0
  unfolding max_index_txn
  new_store-IsIndexed = record {
    bound = λ t. ground (arith, db.index.first-empty t);
    node = AreStamped-empty ⦃e = _⦄ db.node _ _;
    topic = AreStamped-empty ⦃e = _⦄ db.topic _ _;
    partition = AreStamped-empty ⦃e = _⦄ db.partition _ _;
    group = AreStamped-empty ⦃e = _⦄ db.group _ _;
  }
