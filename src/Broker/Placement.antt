-- ===== src/Broker/Placement.antt =====
-- jocko/broker.go: buildPartitions, which gives the partitions of a new topic their replicas. A ring
-- of container/ring is the list of its values from the one that it points at.
pub mod Rings
pub mod Places
use jocko.Common.{
  ℕ, zero, suc, ◌+◌, ◌^◌, List, [], ◌∷◌, ◌++◌, length, Str, Bool, true, false, ltb, if◌then◌else◌,
}
use jocko.Common.Int.{ℤ, pos, negsuc, signed, unsigned}
use jocko.Fsm.Structs.{Partition}
use jocko.Broker.Errors.{err_none, err_invalid_replication_factor}
use jocko.Broker.Handled.{Handled, replied, panicked, ◌>>=◌}

-- r.Next()
abbrev pub rotate : List ℤ → List ℤ
rotate [] = []
rotate (b ∷ bs) = bs ++ (b ∷ [])

-- r.Move(n)
unfoldable pub move : ℕ → List ℤ → List ℤ
move zero ring = ring
move (suc n) ring = move n (rotate ring)

abbrev pub front : List ℤ → List ℤ
front [] = []
front (b ∷ bs) = b ∷ []

-- The inner loop: the values that so many calls of Next come to, and the ring that is left.
unfoldable pub walk : ℕ → List ℤ → List ℤ × List ℤ
walk zero ring = ([], ring)
walk (suc n) ring =
    let (visited, last) = walk n (rotate ring) in (front (rotate ring) ++ visited, last)

-- `int(replicationFactor) > count`
abbrev pub exceeds : ℤ → ℕ → Bool
exceeds (pos n) count = ltb count n
exceeds (negsuc n) count = false

-- The rounds of a loop from 0 up to an integer.
abbrev pub rounds : ℤ → ℕ
rounds (pos n) = n
rounds (negsuc n) = 0

abbrev pub before : ℤ → ℤ
before (pos zero) = negsuc 0
before (pos (suc n)) = pos n
before (negsuc n) = negsuc (suc n)

-- `replicationFactor-1` is an int16, which wraps.
unfoldable pub one_less : ℤ → ℤ
unfolding signed unsigned
one_less factor = signed (2 ^ 15) (unsigned (2 ^ 15) (before factor))

abbrev pub new_partition : Str → ℕ → ℤ → List ℤ → Partition
new_partition topic i leader replicas = record {
  id = pos i;
  partition = pos i;
  topic = topic;
  isr = replicas;
  ar = replicas;
  leader = leader;
  controller_epoch = pos 0;
  leader_epoch = pos 0;
  raft_index = record { create_index = 0; modify_index = 0 };
}

-- One partition, of the ring after its move, and the ring that is left. The ring is empty when no
-- broker is known, and then rand.Intn panics.
unfoldable pub place_one : Str → ℕ → ℕ → List ℤ → Handled (Partition × List ℤ)
unfolding walk
place_one topic steps i [] = panicked
place_one topic steps i (leader ∷ others) =
    let (visited, last) = walk steps (leader ∷ others) in
    replied (new_partition topic i leader (leader ∷ visited), last)

-- The outer loop from partition i on; `moves` are the results of rand.Intn.
unfoldable pub place : Str → ℕ → (ℕ → ℕ) → ℕ → ℕ → List ℤ → Handled (List Partition)
unfolding move place_one
place topic steps moves zero i ring = replied []
place topic steps moves (suc n) i ring =
    place_one topic steps i (move (moves i) ring) >>= λ (p, last).
    place topic steps moves n (i + 1) last >>= λ ps. replied (p ∷ ps)

-- buildPartitions, for the ids of the brokers in some order.
unfoldable pub build_partitions : List ℤ → (ℕ → ℕ) → Str → ℤ → ℤ → Handled (List Partition × ℤ)
unfolding place one_less
build_partitions brokers moves topic count factor =
    if exceeds factor (length brokers)
    then replied ([], err_invalid_replication_factor)
    else (place topic (rounds (one_less factor)) moves (rounds count) 0 brokers >>= λ ps.
        replied (ps, err_none))
