-- ===== src/Broker/Topics/Removals.antt =====
-- What an entry that deregisters a topic does to the tables of topics and partitions.
use jocko.Common.{
  ℕ, Bool, true, false, Option, none, some, Str, str_eq, eq_of_str_eq, ◌≡◌, refl, ap, subst, ◌∙◌,
  if◌then◌else◌,
}
use jocko.Common.Int.{ℤ}
use jocko.Common.Eq.{str_Eq}
use jocko.Fsm.Structs.{Topic, Partition}
use jocko.Fsm.Store.{Database, Store, delete_topic}
use jocko.Fsm.Apply.{deregister_topic, apply_message}
use jocko.Fsm.Spec.{View, view, step, remove_topic}
use jocko.Fsm.Spec.Refines.{apply_message-view}
use jocko.Broker.Raft.{RaftResult, applied, dropped, lost, after_entry}
use jocko.Broker.Topics.Entries.{topic_at}

module _ (db : Database) where
  abbrev pub partition_at : Str × ℤ → Store db → Option Partition
  partition_at k s = db.partition.first k s.partition

  removed-partitions :
      (idx : ℕ) (key : Str) (found : Option Topic) (w : View)
      → (remove_topic idx key found w).partition ≡ w.partition
  removed-partitions idx key none w = refl
  removed-partitions idx key (some t) w = refl

  entry-partitions :
      (idx : ℕ) (t : Topic) (s : Store db) (k : Str × ℤ)
      → partition_at k (apply_message db idx (deregister_topic t) s).0 ≡ partition_at k s
  unfolding apply_message step
  entry-partitions idx t s k =
      go (delete_topic db idx t.topic s).1 (apply_message-view db idx (deregister_topic t) s)
    where
      go :
          (b : Bool)
          → view db (apply_message db idx (deregister_topic t) s).0
            ≡ (if b then step db.to_lower idx (deregister_topic t) (view db s) else view db s)
          → partition_at k (apply_message db idx (deregister_topic t) s).0 ≡ partition_at k s
      go true e =
          ap (λ w. w.partition k) e
          ∙ ap (λ f. f k)
              (removed-partitions idx (db.to_lower t.topic) (topic_at db (db.to_lower t.topic) s)
                (view db s))
      go false e = ap (λ w. w.partition k) e

  pub after-partitions :
      (result : RaftResult) (t : Topic) (s : Store db) (k : Str × ℤ)
      → partition_at k (after_entry db result (deregister_topic t) s) ≡ partition_at k s
  unfolding after_entry
  after-partitions (applied idx) t s k = entry-partitions idx t s k
  after-partitions dropped t s k = refl
  after-partitions (lost idx) t s k = entry-partitions idx t s k

  -- The topic of the name goes and the others stay.
  pub entry-topics :
      (idx : ℕ) (t : Topic) (s : Store db) (k : Str)
      → (delete_topic db idx t.topic s).1 ≡ true
      → topic_at db k (apply_message db idx (deregister_topic t) s).0
        ≡ (if str_eq (db.to_lower t.topic) k then none else topic_at db k s)
  unfolding apply_message step
  entry-topics idx t s k h =
      go (delete_topic db idx t.topic s).1 h (apply_message-view db idx (deregister_topic t) s)
      ∙ removed (topic_at db (db.to_lower t.topic) s) refl
    where
      go :
          (b : Bool)
          → b ≡ true
          → view db (apply_message db idx (deregister_topic t) s).0
            ≡ (if b then step db.to_lower idx (deregister_topic t) (view db s) else view db s)
          → topic_at db k (apply_message db idx (deregister_topic t) s).0
            ≡ (remove_topic idx
                  (db.to_lower t.topic)
                  (topic_at db (db.to_lower t.topic) s)
                  (view db s)).topic
                k
      go true same e = ap (λ w. w.topic k) e
      go false absurd e = cc

      absent :
          (b : Bool)
          → str_eq (db.to_lower t.topic) k ≡ b
          → topic_at db (db.to_lower t.topic) s ≡ none
          → topic_at db k s ≡ (if b then none else topic_at db k s)
      absent true e n =
          subst (λ j. topic_at db j s ≡ none) (eq_of_str_eq (db.to_lower t.topic) k e) n
      absent false e n = refl

      removed :
          (found : Option Topic)
          → topic_at db (db.to_lower t.topic) s ≡ found
          → (remove_topic idx (db.to_lower t.topic) found (view db s)).topic k
            ≡ (if str_eq (db.to_lower t.topic) k then none else topic_at db k s)
      removed none e = absent (str_eq (db.to_lower t.topic) k) refl e
      removed (some u) e = refl
