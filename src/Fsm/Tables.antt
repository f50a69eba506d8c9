-- ===== src/Fsm/Tables.antt =====
-- jocko/fsm/fsm.go: the tables of the store and the keys of their rows, and the stamps of a row.
use jocko.Common.{ℕ, Bool, true, false, Option, none, some, Str, ◌≡◌, refl, ◌↔◌}
use jocko.Common.Int.{ℤ}
use jocko.Common.Eq.{Eq, str_Eq, int_Eq, pair_Eq}
use jocko.Fsm.Memdb.{MemTable}
use jocko.Fsm.TopicConfig.{TopicConfig, new_topic_config}
use jocko.Fsm.Structs.{RaftIndex, Node, Topic, Partition, Group}

pub data TableName : Type 0 where
  nodes topics partitions groups : TableName

abbrev pub table_eq : TableName → TableName → Bool
table_eq nodes nodes = true
table_eq topics topics = true
table_eq partitions partitions = true
table_eq groups groups = true
table_eq _ _ = false

pub table_eq_iff : (a b : TableName) → (table_eq a b ≡ true) ↔ (a ≡ b)
table_eq_iff nodes nodes = (λ _. refl, λ _. refl)
table_eq_iff topics topics = (λ _. refl, λ _. refl)
table_eq_iff partitions partitions = (λ _. refl, λ _. refl)
table_eq_iff groups groups = (λ _. refl, λ _. refl)
table_eq_iff nodes topics = (λ h. cc, λ h. cc)
table_eq_iff nodes partitions = (λ h. cc, λ h. cc)
table_eq_iff nodes groups = (λ h. cc, λ h. cc)
table_eq_iff topics nodes = (λ h. cc, λ h. cc)
table_eq_iff topics partitions = (λ h. cc, λ h. cc)
table_eq_iff topics groups = (λ h. cc, λ h. cc)
table_eq_iff partitions nodes = (λ h. cc, λ h. cc)
table_eq_iff partitions topics = (λ h. cc, λ h. cc)
table_eq_iff partitions groups = (λ h. cc, λ h. cc)
table_eq_iff groups nodes = (λ h. cc, λ h. cc)
table_eq_iff groups topics = (λ h. cc, λ h. cc)
table_eq_iff groups partitions = (λ h. cc, λ h. cc)

instance abbrev pub table_Eq : Eq TableName
table_Eq = record { beq = table_eq; beq_iff = table_eq_iff }

-- The last index that changed a table.
pub record IndexEntry : Type 0 where
  pub key : TableName
  pub value : ℕ

-- The keys of the five schemas; the string indexes of topics and groups fold the letter case.
abbrev pub partition_key : Partition → Str × ℤ
partition_key p = (p.topic, p.partition)

-- The in-memory database behind the store. `to_lower` is the standard library's strings.ToLower.
pub record Database : Type 1 where
  pub to_lower : Str → Str
  pub index : MemTable TableName IndexEntry (λ i. i.key)
  pub node : MemTable ℤ Node (λ n. n.node)
  pub topic : MemTable Str Topic (λ t. to_lower t.topic)
  pub partition : MemTable (Str × ℤ) Partition partition_key
  pub group : MemTable Str Group (λ g. to_lower g.group)

-- CreateIndex is kept when the row exists; ModifyIndex is the index of the log entry.
abbrev pub next_index : Option RaftIndex → ℕ → RaftIndex
next_index none idx = record { create_index = idx; modify_index = idx }
next_index (some old) idx = record { create_index = old.create_index; modify_index = idx }

infixl 5 ◌>>=◌
abbrev pub ◌>>=◌ {ℓ κ} : {A : Type ℓ} {B : Type κ} → Option A → (A → Option B) → Option B
none >>= f = none
some a >>= f = f a

pub >>=-eq-some {ℓ κ} :
    {B : Type κ} {A : Type ℓ} (first : Option A) (next : A → Option B) {v : B}
    → (first >>= next) ≡ some v
    → (x : A) × (first ≡ some x) × (next x ≡ some v)
>>=-eq-some (some x) next e = (x, refl, e)
>>=-eq-some none next e = cc

-- The configuration that EnsureTopic gives to a topic without one.
abbrev pub with_config : Option TopicConfig → Option TopicConfig
with_config none = some new_topic_config
with_config (some c) = some c
