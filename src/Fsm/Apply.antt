-- ===== src/Fsm/Apply.antt =====
-- jocko/fsm/commands.go, FSM.Apply of fsm.go, and Encode and Decode of jocko/structs/structs.go: an
-- entry of the Raft log is one byte for the type of the message and the encoded message.
pub mod Indexes
use jocko.Common.{ℕ, Bool, true, false, Option, none, some, List, [], ◌∷◌, ◌≡◌, refl, ap, ap₂, ◌∙◌}
use jocko.Common.{◌==◌, map, All, if◌then◌else◌}
use jocko.Fsm.Structs.{Node, Topic, Partition, Group}
use jocko.Fsm.Store.{
  Database, Store, ensure_node, delete_node, ensure_topic, delete_topic, ensure_partition,
  delete_partition, ensure_group,
}

-- The messages, in the order of their MessageType.
pub data Message : Type 0 where
  register_node deregister_node : Node → Message
  register_topic deregister_topic : Topic → Message
  register_partition deregister_partition : Partition → Message
  register_group : Group → Message

abbrev pub message_type : Message → ℕ
message_type (register_node n) = 0
message_type (deregister_node n) = 1
message_type (register_topic t) = 2
message_type (deregister_topic t) = 3
message_type (register_partition p) = 4
message_type (deregister_partition p) = 5
message_type (register_group g) = 6

-- The msgpack codec of ugorji/go for the structs of the requests. Register and deregister requests
-- have the same fields, and so the same encoding.
pub record Codec : Type 0 where
  pub pack_node : Node → List ℕ
  pub pack_topic : Topic → List ℕ
  pub pack_partition : Partition → List ℕ
  pub pack_group : Group → List ℕ
  pub unpack_node : List ℕ → Option Node
  pub unpack_topic : List ℕ → Option Topic
  pub unpack_partition : List ℕ → Option Partition
  pub unpack_group : List ℕ → Option Group

abbrev pub pack : Codec → Message → List ℕ
pack c (register_node n) = c.pack_node n
pack c (deregister_node n) = c.pack_node n
pack c (register_topic t) = c.pack_topic t
pack c (deregister_topic t) = c.pack_topic t
pack c (register_partition p) = c.pack_partition p
pack c (deregister_partition p) = c.pack_partition p
pack c (register_group g) = c.pack_group g

-- The struct of a message is decoded as it was encoded.
abbrev pub RoundTrips : Codec → Message → Type 0
RoundTrips c (register_node n) = c.unpack_node (c.pack_node n) ≡ some n
RoundTrips c (deregister_node n) = c.unpack_node (c.pack_node n) ≡ some n
RoundTrips c (register_topic t) = c.unpack_topic (c.pack_topic t) ≡ some t
RoundTrips c (deregister_topic t) = c.unpack_topic (c.pack_topic t) ≡ some t
RoundTrips c (register_partition p) = c.unpack_partition (c.pack_partition p) ≡ some p
RoundTrips c (deregister_partition p) = c.unpack_partition (c.pack_partition p) ≡ some p
RoundTrips c (register_group g) = c.unpack_group (c.pack_group g) ≡ some g

-- The methods that init registers.
pub data Command : Type 0 where
  apply_register_node apply_deregister_node apply_register_topic : Command
  apply_deregister_topic apply_register_partition apply_deregister_partition : Command
  apply_register_group : Command

-- c.apply[msgType] after the calls of registerCommand.
unfoldable pub command : ℕ → Option Command
command tag =
    if tag == 0
    then some apply_register_node
    else if tag == 1
    then some apply_deregister_node
    else if tag == 2
    then some apply_register_topic
    else if tag == 3
    then some apply_deregister_topic
    else if tag == 4
    then some apply_register_partition
    else if tag == 5
    then some apply_deregister_partition
    else if tag == 6
    then some apply_register_group
    else none

-- structs.Encode
unfoldable pub encode : Codec → Message → List ℕ
encode c m = message_type m ∷ pack c m

-- What Apply comes to: the store with the success of its operation, or a panic on a buffer that is
-- empty or does not decode. An unknown type returns nil and changes nothing.
pub data Applied (A : Type 0) : Type 0 where
  returned : A → Bool → Applied A
  panicked : Applied A

module _ (db : Database) where
  -- What a message does to the store, and the success of its operation.
  unfoldable pub apply_message : ℕ → Message → Store db → Store db × Bool
  apply_message idx (register_node n) s = ensure_node db idx n s
  apply_message idx (deregister_node n) s = delete_node db idx n.node s
  apply_message idx (register_topic t) s = ensure_topic db idx t s
  apply_message idx (deregister_topic t) s = delete_topic db idx t.topic s
  apply_message idx (register_partition p) s = ensure_partition db idx p s
  apply_message idx (deregister_partition p) s = delete_partition db idx p.topic p.partition s
  apply_message idx (register_group g) s = ensure_group db idx g s

  -- The end of an apply… method: it panics on a struct that does not decode, and carries out the
  -- operation of the store on the others.
  abbrev decoded : {A : Type 0} → Option A → (A → Store db × Bool) → Applied (Store db)
  decoded none operation = panicked
  decoded (some a) operation = let (s', fine) = operation a in returned s' fine

  -- The apply… methods.
  unfoldable pub run_command : Codec → ℕ → Command → List ℕ → Store db → Applied (Store db)
  unfolding ensure_node delete_node ensure_topic delete_topic ensure_partition delete_partition
      ensure_group
  run_command c idx apply_register_node buf s =
      decoded (c.unpack_node buf) (λ n. ensure_node db idx n s)
  run_command c idx apply_deregister_node buf s =
      decoded (c.unpack_node buf) (λ n. delete_node db idx n.node s)
  run_command c idx apply_register_topic buf s =
      decoded (c.unpack_topic buf) (λ t. ensure_topic db idx t s)
  run_command c idx apply_deregister_topic buf s =
      decoded (c.unpack_topic buf) (λ t. delete_topic db idx t.topic s)
  run_command c idx apply_register_partition buf s =
      decoded (c.unpack_partition buf) (λ p. ensure_partition db idx p s)
  run_command c idx apply_deregister_partition buf s =
      decoded (c.unpack_partition buf) (λ p. delete_partition db idx p.topic p.partition s)
  run_command c idx apply_register_group buf s =
      decoded (c.unpack_group buf) (λ g. ensure_group db idx g s)

  abbrev run_found : Codec → ℕ → Option Command → List ℕ → Store db → Applied (Store db)
  run_found c idx none buf s = returned s true
  run_found c idx (some m) buf s = run_command c idx m buf s

  -- FSM.Apply
  unfoldable pub apply : Codec → ℕ → List ℕ → Store db → Applied (Store db)
  unfolding run_command command
  apply c idx [] s = panicked
  apply c idx (tag ∷ buf) s = run_found c idx (command tag) buf s

  -- Raft applies the committed entries in order.
  unfoldable pub replay : List (ℕ × Message) → Store db → Store db
  unfolding apply_message
  replay [] s = s
  replay ((idx, m) ∷ log) s = replay log (apply_message idx m s).0

  next_entry : Codec → Applied (Store db) → (Store db → Option (Store db)) → Option (Store db)
  next_entry c (returned s fine) k = k s
  next_entry c panicked k = none

  -- The entries as they stand in the log; `none` when Apply panics on one.
  unfoldable pub apply_log : Codec → List (ℕ × List ℕ) → Store db → Option (Store db)
  unfolding apply next_entry
  apply_log c [] s = some s
  apply_log c ((idx, buf) ∷ log) s = next_entry c (apply c idx buf s) (apply_log c log)

  apply-encode :
      (c : Codec) (idx : ℕ) (m : Message) (s : Store db)
      → RoundTrips c m
      → apply c idx (encode c m) s ≡ returned (apply_message idx m s).0 (apply_message idx m s).1
  unfolding apply encode command run_command apply_message
  apply-encode c idx (register_node n) s h = ap (λ o. decoded o (λ n. ensure_node db idx n s)) h
  apply-encode c idx (deregister_node n) s h =
      ap (λ o. decoded o (λ n. delete_node db idx n.node s)) h
  apply-encode c idx (register_topic t) s h = ap (λ o. decoded o (λ t. ensure_topic db idx t s)) h
  apply-encode c idx (deregister_topic t) s h =
      ap (λ o. decoded o (λ t. delete_topic db idx t.topic s)) h
  apply-encode c idx (register_partition p) s h =
      ap (λ o. decoded o (λ p. ensure_partition db idx p s)) h
  apply-encode c idx (deregister_partition p) s h =
      ap (λ o. decoded o (λ p. delete_partition db idx p.topic p.partition s)) h
  apply-encode c idx (register_group g) s h = ap (λ o. decoded o (λ g. ensure_group db idx g s)) h

  -- A log of messages, each encoded behind the number of its type as raftApply does, is applied
  -- without a panic when msgpack decodes the struct of each as it was encoded: the method that is
  -- registered for the number does what the message says, in the order of the log.
  pub apply_log-encode :
      (c : Codec) (log : List (ℕ × Message)) (s : Store db)
      → All (λ entry. RoundTrips c entry.1) log
      → apply_log c (map (λ entry. (entry.0, encode c entry.1)) log) s ≡ some (replay log s)
  unfolding apply_log replay
  apply_log-encode c [] s h = refl
  apply_log-encode c ((idx, m) ∷ log) s (h, hs) =
      ap (λ r. next_entry c r (apply_log c (map (λ entry. (entry.0, encode c entry.1)) log)))
        (apply-encode c idx m s h)
      ∙ apply_log-encode c log (apply_message idx m s).0 hs
