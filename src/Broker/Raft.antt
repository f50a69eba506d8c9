-- ===== src/Broker/Raft.antt =====
-- raftApply of jocko/leader.go. hashicorp/raft is a sequence of results, one for each call. A
-- message is applied as Fsm/Apply does it, which is what Apply does with an entry that decodes as it
-- was encoded.
use jocko.Common.{ℕ, ◌+◌, Bool, true, false}
use jocko.Fsm.Store.{Database, Store}
use jocko.Fsm.Apply.{Message, apply_message}

-- What raft.Apply and its future come to: the entry was applied at an index, or there is an error,
-- and then the entry was dropped or was applied all the same, as it can be when leadership is lost.
pub data RaftResult : Type 0 where
  applied : ℕ → RaftResult
  dropped : RaftResult
  lost : ℕ → RaftResult

-- `err == nil`
abbrev pub is_fine : RaftResult → Bool
is_fine (applied idx) = true
is_fine dropped = false
is_fine (lost idx) = false

module _ (db : Database) where
  -- The store of this broker, and the number of calls of raftApply so far.
  pub record Cluster : Type 0 where
    pub store : Store db
    pub calls : ℕ

  unfoldable pub after_entry : RaftResult → Message → Store db → Store db
  unfolding apply_message
  after_entry (applied idx) m s = (apply_message db idx m s).0
  after_entry dropped m s = s
  after_entry (lost idx) m s = (apply_message db idx m s).0

-- raftApply: the callers look at its error only, and not at the response of Apply.
unfoldable pub raft_apply :
    (db : Database) → (ℕ → RaftResult) → Message → Cluster db → Cluster db × Bool
unfolding after_entry
raft_apply db outcomes m c = (
  record { store = after_entry db (outcomes c.calls) m c.store; calls = c.calls + 1 },
  is_fine (outcomes c.calls),
)
