-- ===== src/Broker/Topics/Entries.antt =====
-- The entries that createTopic of jocko/broker.go gives to Raft, and what they do to the store.
use jocko.Common.{
  ℕ, ◌+◌, Bool, true, false, Option, some, List, [], ◌∷◌, map, Str, str_eq, str_eq_refl, codes, ◌≡◌,
  refl, sym, ap, subst, ◌∙◌, if◌then◌else◌,
}
use jocko.Common.Eq.{str_Eq}
use jocko.Fsm.Structs.{Topic, Partition}
use jocko.Fsm.TopicConfig.{ConfigValue, get_value, get, new_topic_config}
use mathlib.Core.Option
use jocko.Broker.Replicas.{config_of}
use jocko.Fsm.Store.{Database, Store, next_index, ensure_topic, ensure_partition}
use jocko.Fsm.Apply.{Message, register_topic, register_partition, apply_message, replay}
use jocko.Fsm.Spec.{view, step}
use jocko.Fsm.Spec.Refines.{apply_message-view}
use jocko.Broker.Topics.{new_topic}
use jocko.Broker.Replicas.Roles.{HasPolicy}

-- Messages under the indexes that Raft gives to the calls from the nth on.
unfoldable pub entries : (ℕ → ℕ) → ℕ → List Message → List (ℕ × Message)
entries index n [] = []
entries index n (m ∷ ms) = (index n, m) ∷ entries index (n + 1) ms

default_policy :
    get_value (codes "cleanup.policy") new_topic_config ≡ ConfigValue.text (codes "delete")
unfolding get_value get new_topic_config str_eq
default_policy = refl

the_policy : (t : Topic) → t.config ≡ some new_topic_config → HasPolicy (some t)
the_policy t e =
    (codes "delete", ap (λ c. get_value (codes "cleanup.policy") (config_of c)) e ∙ default_policy)

module _ (db : Database) where
  abbrev pub topic_at : Str → Store db → Option Topic
  topic_at k s = db.topic.first k s.topic

  partition-topics :
      (idx : ℕ) (p : Partition) (s : Store db) (k : Str)
      → topic_at k (apply_message db idx (register_partition p) s).0 ≡ topic_at k s
  unfolding apply_message step
  partition-topics idx p s k =
      go (ensure_partition db idx p s).1 (apply_message-view db idx (register_partition p) s)
    where
      go :
          (b : Bool)
          → view db (apply_message db idx (register_partition p) s).0
            ≡ (if b then step db.to_lower idx (register_partition p) (view db s) else view db s)
          → topic_at k (apply_message db idx (register_partition p) s).0 ≡ topic_at k s
      go true e = ap (λ w. w.topic k) e
      go false e = ap (λ w. w.topic k) e

  -- The entries of partitions leave the topics as they are.
  pub partitions-topics :
      (index : ℕ → ℕ) (n : ℕ) (ps : List Partition) (s : Store db) (k : Str)
      → topic_at k (replay db (entries index n (map register_partition ps)) s) ≡ topic_at k s
  unfolding replay entries
  partitions-topics index n [] s k = refl
  partitions-topics index n (p ∷ ps) s k =
      partitions-topics index (n + 1) ps (apply_message db (index n) (register_partition p) s).0 k
      ∙ partition-topics (index n) p s k

  -- A topic that was registered without a configuration has the default one.
  pub registered-HasPolicy :
      (idx : ℕ) (name : Str) (ps : List Partition) (s : Store db)
      → (ensure_topic db idx (new_topic name ps) s).1 ≡ true
      → HasPolicy (
          topic_at
            (db.to_lower name)
            (apply_message db idx (register_topic (new_topic name ps)) s).0)
  unfolding apply_message step
  registered-HasPolicy idx name ps s h =
      go (ensure_topic db idx (new_topic name ps) s).1 h
        (apply_message-view db idx (register_topic (new_topic name ps)) s)
    where
      written : Topic
      written = record (new_topic name ps) {
        config = some new_topic_config;
        raft_index =
            next_index (Option.map (λ u. u.raft_index) (topic_at (db.to_lower name) s)) idx;
      }

      go :
          (b : Bool)
          → b ≡ true
          → view db (apply_message db idx (register_topic (new_topic name ps)) s).0 ≡ (
              if b
              then step db.to_lower idx (register_topic (new_topic name ps)) (view db s)
              else view db s)
          → HasPolicy (
              topic_at
                (db.to_lower name)
                (apply_message db idx (register_topic (new_topic name ps)) s).0)
      go false absurd e = cc
      go true same e =
          subst HasPolicy
            (sym (
              ap (λ w. w.topic (db.to_lower name)) e
              ∙ ap (λ c. if c then some written else topic_at (db.to_lower name) s)
                  (str_eq_refl (db.to_lower name))))
            (the_policy written refl)
