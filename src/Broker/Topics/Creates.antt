-- ===== src/Broker/Topics/Creates.antt =====
-- createTopic of jocko/broker.go.
use jocko.Common.{
  ℕ, ◌+◌, ◌^◌, ◌≤◌, Bool, true, false, none, List, [], ◌∷◌, map, length, All, Str, ◌≡◌, refl, sym,
  ap, subst, ◌∙◌, if◌then◌else◌,
}
use jocko.Common.Int.{ℤ, InWord}
use jocko.Common.Eq.{int_eq}
use jocko.Fsm.Structs.{Partition}
use jocko.Fsm.Store.{Database, Store, get_topic, ensure_topic}
use jocko.Fsm.Apply.{Message, register_topic, register_partition, apply_message, replay}
use jocko.Protocol.Message.LeaderAndIsr.{LeaderAndIsrRequest}
use jocko.Broker.Errors.{err_none, err_unknown}
use jocko.Broker.Handled.{Handled, replied, ◌>>=◌}
use jocko.Broker.Raft.{RaftResult, is_fine, applied, Cluster, after_entry, raft_apply}
use jocko.Broker.Placement.{exceeds, before, rounds}
use jocko.Broker.Placement.Rings.{Distinct}
use jocko.Broker.Placement.Places.{followers, IsPlaced, ids, build_partitions-IsPlaced}
use jocko.Broker.Replicas.{Local, Lookup}
use jocko.Broker.Replicas.Roles.{Replies, HasPolicy}
use jocko.Broker.Replicas.Answers.{handle_leader_and_isr-Registers}
use jocko.Broker.Topics.{
  Broker, Choices, Pending, CreateTopicRequest, new_topic, state_of, roles_request,
  create_partitions, announce, register_all, create_missing, create_topic,
}
use jocko.Broker.Topics.Entries.{entries, topic_at, partitions-topics, registered-HasPolicy}

module _ (db : Database) (local : Local) (outcomes : ℕ → RaftResult) where
  -- The loop over the brokers replies and leaves the cluster as it is.
  announce-Replies :
      (me : ℤ) (req : LeaderAndIsrRequest) (brokers : List ℤ) (c : Cluster db)
      (lookup : Lookup local) (left : List Pending)
      → All (λ p. HasPolicy (get_topic db p.topic c.store).1) req.partition_states
      → Replies
          (λ a. a.0.cluster ≡ c)
          (announce db local outcomes me req brokers
            (record { cluster = c; lookup = lookup; background = left }))
  unfolding announce
  announce-Replies me req [] c lookup left h = (_, refl, refl)
  announce-Replies me req (id ∷ brokers) c lookup left h =
      let (last, res, e, coded, names, registered) =
        handle_leader_and_isr-Registers db local me c.store req lookup h in
      let (a, f, g) = announce-Replies me req brokers c last left h in
      go (int_eq id me) (local.dials id) (local.accepts id)
        (
          a,
          ap
                (λ o. o >>= λ (last, res).
                  announce db local outcomes me req brokers
                    (record { cluster = c; lookup = last; background = left }))
                e
              ∙ f,
          g,
        )
        (announce-Replies me req brokers c lookup left h)
    where
      go :
          {here remote : Handled (Broker db local × ℤ)} (is_me dials accepts : Bool)
          → Replies (λ a. a.0.cluster ≡ c) here
          → Replies (λ a. a.0.cluster ≡ c) remote
          → Replies
              (λ a. a.0.cluster ≡ c)
              (if is_me
                then here
                else (if dials
                    then (if accepts
                        then remote
                        else replied (
                          record { cluster = c; lookup = lookup; background = left },
                          err_unknown,
                        ))
                    else replied
                        (record { cluster = c; lookup = lookup; background = left }, err_unknown)))
      go true dials accepts here remote = here
      go false true true here remote = remote
      go false true false here remote = (_, refl, refl)
      go false false accepts here remote = (_, refl, refl)

  module _ (index : ℕ → ℕ) (applies : (n : ℕ) → outcomes n ≡ applied (index n)) where
    -- The cluster after entries that Raft applies.
    abbrev pub replayed : List Message → Cluster db → Store db
    replayed ms c = replay db (entries index c.calls ms) c.store

    raft_apply-applied :
        (m : Message) (c : Cluster db)
        → raft_apply db outcomes m c ≡ (
          record { store = (apply_message db (index c.calls) m c.store).0; calls = c.calls + 1 },
          true,
        )
    unfolding raft_apply after_entry
    raft_apply-applied m c =
        ap (λ o. (record { store = after_entry db o m c.store; calls = c.calls + 1 }, is_fine o))
          (applies c.calls)

    create_partitions-replayed :
        (ps : List Partition) (c : Cluster db)
        → ((create_partitions db local outcomes ps c).0.store
            ≡ replayed (map register_partition ps) c)
          × ((create_partitions db local outcomes ps c).1 ≡ true)
    unfolding create_partitions replay entries
    create_partitions-replayed [] c = (refl, refl)
    create_partitions-replayed (p ∷ ps) c =
        let next : Cluster db = record {
          store = (apply_message db (index c.calls) (register_partition p) c.store).0;
          calls = c.calls + 1;
        } in
        let (stores, fine) = create_partitions-replayed ps next in
        let same =
          ap
            (λ (o : Cluster db × Bool).
              if o.1 then create_partitions db local outcomes ps o.0 else (o.0, false))
            (raft_apply-applied (register_partition p) c) in
        (ap (λ o. o.0.store) same ∙ stores, ap (λ o. o.1) same ∙ fine)

    states-HasPolicy :
        (P : ℤ → Type 0) (name : Str) (steps : ℕ) (s : Store db)
        → HasPolicy (topic_at db (db.to_lower name) s)
        → (ps : List Partition) → All (IsPlaced P name steps) ps
        → All (λ p. HasPolicy (get_topic db p.topic s).1) (map state_of ps)
    states-HasPolicy P name steps s h [] placed = tt
    states-HasPolicy P name steps s h (p ∷ ps) (one, placed) = (
      subst (λ n. HasPolicy (topic_at db (db.to_lower n) s)) (sym one.topic) h,
      states-HasPolicy P name steps s h ps placed,
    )

    -- The messages of createTopic.
    abbrev pub topic_messages : Str → List Partition → List Message
    topic_messages name ps = register_topic (new_topic name ps) ∷ map register_partition ps

    register_all-replayed :
        (P : ℤ → Type 0) (steps : ℕ) (me : ℤ) (brokers : List ℤ) (name : Str) (ps : List Partition)
        (b : Broker db local)
        → All (IsPlaced P name steps) ps
        → (ensure_topic db (index b.cluster.calls) (new_topic name ps) b.cluster.store).1 ≡ true
        → Replies
            (λ a. a.0.cluster.store ≡ replayed (topic_messages name ps) b.cluster)
            (register_all db local outcomes me brokers name ps b)
    unfolding register_all replay entries
    register_all-replayed P steps me brokers name ps b placed written =
        let c1 : Cluster db = record {
          store =
              (apply_message db (index b.cluster.calls) (register_topic (new_topic name ps))
                b.cluster.store).0;
          calls = b.cluster.calls + 1;
        } in
        let c2 = (create_partitions db local outcomes ps c1).0 in
        let (stores, fine) = create_partitions-replayed ps c1 in
        let req = roles_request me ps in
        let policy : HasPolicy (topic_at db (db.to_lower name) c2.store) =
          subst HasPolicy
            (sym (
              ap (topic_at db (db.to_lower name)) stores
              ∙ partitions-topics db index c1.calls ps c1.store (db.to_lower name)))
            (registered-HasPolicy db (index b.cluster.calls) name ps b.cluster.store written) in
        let (a, e, kept) =
          announce-Replies me req brokers c2 b.lookup b.background
            (states-HasPolicy P name steps c2.store policy ps placed) in
        let told : Cluster db → Handled (Broker db local × ℤ) = (λ c.
          announce db local outcomes me req brokers
            (record { cluster = c; lookup = b.lookup; background = b.background })) in
        (
          a,
          ap
                (λ (o : Cluster db × Bool).
                  let (c', all) = create_partitions db local outcomes ps o.0 in
                  if o.1
                  then (if all then told c' else replied (record b { cluster = c' }, err_unknown))
                  else replied (record b { cluster = o.0 }, err_unknown))
                (raft_apply-applied (register_topic (new_topic name ps)) b.cluster)
              ∙ ap
                  (λ all. if all then told c2 else replied (record b { cluster = c2 }, err_unknown))
                  fine
              ∙ e,
          ap (λ (c : Cluster db). c.store) kept ∙ stores,
        )

    -- When the topic is not there, a broker is known and each once, the number of partitions fits an
    -- int32, the factor and one less than it fit an int16, the factor is at most the number of
    -- brokers, Raft applies every entry and the transaction of the topic succeeds, createTopic
    -- replies, and the store is what the log of these entries makes of it: the topic and then its
    -- partitions from 0 on. Each partition has different replicas, as many as the factor says and
    -- one at least, of which holds what holds of the ids of all brokers, with the leader first
    -- and all in sync. This holds whatever rand.Intn returns and whichever brokers can be reached
    -- to be told of their roles.
    pub create_topic-replayed :
        (P : ℤ → Type 0) (me : ℤ) (choice : Choices) (req : CreateTopicRequest)
        (b : Broker db local)
        → (get_topic db req.topic b.cluster.store).1 ≡ none
        → 1 ≤ length choice.brokers
        → Distinct choice.brokers
        → All P choice.brokers
        → exceeds req.replication_factor (length choice.brokers) ≡ false
        → InWord (2 ^ 31) req.num_partitions
        → InWord (2 ^ 15) req.replication_factor
        → InWord (2 ^ 15) (before req.replication_factor)
        → ((ps : List Partition)
            → (ensure_topic db (index b.cluster.calls) (new_topic req.topic ps) b.cluster.store).1
              ≡ true)
        → (ps : List Partition) × (map (λ p. p.id) ps ≡ ids 0 (rounds req.num_partitions))
          × All (IsPlaced P req.topic (followers req.replication_factor)) ps
          × Replies
              (λ a. a.0.cluster.store ≡ replayed (topic_messages req.topic ps) b.cluster)
              (create_topic db local outcomes me choice req b)
    unfolding create_topic create_missing
    create_topic-replayed P me choice req b absent some_broker distinct known fits count factor
          fewer written =
        let (ps, built, numbers, placed) =
          build_partitions-IsPlaced P choice.brokers choice.moves req.topic req.num_partitions
            req.replication_factor some_broker distinct known fits count factor fewer in
        let (a, e, stores) =
          register_all-replayed P (followers req.replication_factor) me choice.told req.topic ps b
            placed (written ps) in
        (
          ps,
          numbers,
          placed,
          (
            a,
            ap (λ t. create_missing db local outcomes me choice req t b) absent
                ∙ ap
                    (λ o. o >>= λ (ps, code).
                      if int_eq code err_none
                      then register_all db local outcomes me choice.told req.topic ps b
                      else replied (b, code))
                    built
                ∙ e,
            stores,
          ),
        )
