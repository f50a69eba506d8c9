-- ===== src/CommitLog/Segment.antt =====
-- commitlog/segment.go: a segment of the log, and the disk under it.
use jocko.Common.{ℕ, Bool, true, false, not, List, [], ◌++◌, length, take}
use jocko.CommitLog.Int64.{add64, lt64}
use jocko.CommitLog.Index.{Index, new_index}

pub record Segment : Type 0 where
  pub base_offset : ℕ
  pub next_offset : ℕ
  pub position : ℕ
  pub max_bytes : ℕ
  pub log : List ℕ
  pub index : Index

-- A write to a file takes all of the bytes, or fails after some of them.
pub data Written : Type 0 where
  all : Written
  some_of : ℕ → Written

-- What the calls of the operating system come to: opening the files of a new segment, a write to the
-- log file of a segment, closing and removing the files of one.
pub record Disk : Type 0 where
  pub opens : ℕ → Bool
  pub writes : Segment → List ℕ → Written
  pub removes : Segment → Bool

-- NewSegment on files that are not there yet: BuildIndex reads an empty log.
unfoldable pub new_segment : ℕ → ℕ → Segment
new_segment base max_bytes = record {
  base_offset = base;
  next_offset = base;
  position = 0;
  max_bytes = max_bytes;
  log = [];
  index = new_index base 0;
}

unfoldable pub is_full : Segment → Bool
is_full s = not (lt64 s.position s.max_bytes)

abbrev pub written : List ℕ → Written → Segment → Segment × Bool
written p all s = (
  record s {
    next_offset = add64 s.next_offset 1;
    position = add64 s.position (length p);
    log = s.log ++ p;
  },
  true,
)
written p (some_of n) s = (record s { log = s.log ++ take n p }, false)

-- Write, with whether it succeeded.
unfoldable pub write : Disk → List ℕ → Segment → Segment × Bool
write disk p s = written p (disk.writes s p) s
