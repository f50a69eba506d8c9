-- ===== src/CommitLog/Log.antt =====
-- commitlog/commitlog.go: the log of a partition.
pub mod Chain
pub mod Appends
pub mod Truncates
use mathlib.Core.Option
use jocko.Common.{
  not, ◌&&◌, ℕ, ◌+◌, ◌^◌, Bool, true, false, Option, none, some, List, [], ◌∷◌, ◌++◌, length, ltb,
  if◌then◌else◌,
}
use jocko.Protocol.Binary.{be_bytes, write_at}
use jocko.CommitLog.Int64.{add64, lt64, Reply, done, failed, panicked, disk_error}
use jocko.CommitLog.Index.{Index, Entry, write_entry}
use jocko.CommitLog.Segment.{Segment, Disk, new_segment, is_full, write}
use jocko.CommitLog.DeleteCleaner.{Cleaned, clean}

-- The active segment is a pointer that the list holds too, at its end, until Truncate deletes that
-- segment: `older` is the list without it, and `listed` tells whether the list holds it.
pub record CommitLog : Type 0 where
  pub older : List Segment
  pub listed : Bool
  pub active : Segment
  pub max_segment_bytes : ℕ
  pub max_log_bytes : ℕ

abbrev pub segments : CommitLog → List Segment
segments l = if l.listed then l.older ++ l.active ∷ [] else l.older

-- New on a directory with no files, with the delete policy.
abbrev pub new_log : ℕ → ℕ → CommitLog
unfolding new_segment
new_log max_segment_bytes max_log_bytes = record {
  older = [];
  listed = true;
  active = new_segment 0 max_segment_bytes;
  max_segment_bytes = max_segment_bytes;
  max_log_bytes = max_log_bytes;
}

abbrev pub newest_offset : CommitLog → ℕ
newest_offset l = l.active.next_offset

abbrev base_of : List Segment → Reply ℕ
base_of [] = panicked
base_of (s ∷ ss) = done s.base_offset

abbrev pub oldest_offset : CommitLog → Reply ℕ
oldest_offset l = base_of (segments l)

-- The list without its last segment.
abbrev pub front : List Segment → List Segment
front [] = []
front (s ∷ []) = []
front (s ∷ t ∷ ss) = s ∷ front (t ∷ ss)

-- split: the cleaner has put the new segment last in what it returns. A failure leaves the list as it
-- is, the segments that the cleaner deleted included.
abbrev pub split_into : Segment → Option (List Segment) → CommitLog → CommitLog × Bool
split_into new none l = (l, false)
split_into new (some kept) l = (record l { older = front kept; listed = true; active = new }, true)

unfoldable pub split : Disk → CommitLog → CommitLog × Bool
unfolding new_segment clean
split disk l =
    let new = new_segment (newest_offset l) l.max_segment_bytes in
    if disk.opens new.base_offset
    then split_into new (clean disk l.max_log_bytes (segments l ++ new ∷ [])).segments l
    else (l, false)

-- The end of Append: the entry of the index, after a write.
abbrev pub indexed : ℕ → Segment → Reply Index → CommitLog → CommitLog × Reply ℕ
indexed offset s (done idx) l = (record l { active = record s { index = idx } }, done offset)
indexed offset s (failed e) l = (record l { active = s }, failed e)
indexed offset s panicked l = (record l { active = s }, panicked)

-- Append once the active segment has room. A message set is a slice whose capacity
-- is its length, so that PutOffset panics on fewer than eight bytes.
unfoldable pub append_active : Disk → List ℕ → CommitLog → CommitLog × Reply ℕ
unfolding write
append_active disk b l =
    let offset = l.active.next_offset in
    let e : Entry = record { offset = offset; position = l.active.position } in
    let (s, fine) = write disk (write_at b 0 (be_bytes 8 offset)) l.active in
    if ltb (length b) 8
    then (l, panicked)
    else if fine
    then indexed offset s (write_entry e s.index) l
    else (record l { active = s }, failed disk_error)

-- Append
unfoldable pub append : Disk → List ℕ → CommitLog → CommitLog × Reply ℕ
unfolding append_active split
append disk b l =
    let (l', fine) = split disk l in
    if is_full l.active
    then if fine then append_active disk b l' else (l', failed disk_error)
    else append_active disk b l

-- The loop of Truncate: the segments that stay, `none` when a deletion fails.
unfoldable pub truncate_all : Disk → ℕ → List Segment → Option (List Segment)
truncate_all disk offset [] = some []
truncate_all disk offset (s ∷ ss) =
    let rest = truncate_all disk offset ss in
    if lt64 s.base_offset offset
    then if disk.removes s then rest else none
    else Option.map (λ kept. s ∷ kept) rest

abbrev pub truncated : Bool → Option (List Segment) → CommitLog → CommitLog × Bool
truncated listed none l = (l, false)
truncated listed (some kept) l =
    (record l { older = if listed then front kept else kept; listed = listed }, true)

-- Truncate. The active segment stays active when it is deleted.
unfoldable pub truncate : Disk → ℕ → CommitLog → CommitLog × Bool
unfolding truncate_all
truncate disk offset l =
    truncated (l.listed && not (lt64 l.active.base_offset offset))
      (truncate_all disk offset (segments l)) l
