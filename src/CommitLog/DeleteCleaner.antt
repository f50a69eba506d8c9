-- ===== src/CommitLog/DeleteCleaner.antt =====
-- commitlog/delete_cleaner.go: the retention of the newest segments of a log.
pub mod Retains
pub mod Cleans
use jocko.Common.{ℕ, Bool, true, false, Option, none, some, List, [], ◌∷◌, ◌==◌, if◌then◌else◌}
use mathlib.Core.List.{reverse}
use jocko.CommitLog.Int64.{minus_one, add64, lt64}
use jocko.CommitLog.Segment.{Segment, Disk}

-- The first loop, over the segments older than the newest, newest first: the segments that are kept,
-- oldest first, and the rest.
unfoldable pub keep : ℕ → ℕ → List Segment → List Segment → List Segment × List Segment
keep retention total [] kept = (kept, [])
keep retention total (s ∷ older) kept =
    let rest = keep retention (add64 total s.position) older (s ∷ kept) in
    if lt64 retention (add64 total s.position) then (kept, s ∷ older) else rest

-- The second loop: the segments that are deleted, and whether no deletion failed.
unfoldable pub delete_all : Disk → List Segment → List Segment × Bool
delete_all disk [] = ([], true)
delete_all disk (s ∷ older) =
    let (gone, fine) = delete_all disk older in
    if disk.removes s then (s ∷ gone, fine) else ([], false)

-- What Clean returns, `none` when a deletion fails, beside the segments that it deleted.
pub record Cleaned : Type 0 where
  pub segments : Option (List Segment)
  pub deleted : List Segment

unfoldable pub delete_old : Disk → List Segment × List Segment → Cleaned
unfolding delete_all
delete_old disk (kept, old) =
    let (gone, fine) = delete_all disk old in
    record { segments = if fine then some kept else none; deleted = gone }

unfoldable pub clean_newest_first : Disk → ℕ → List Segment → Cleaned
unfolding keep delete_old
clean_newest_first disk retention [] = record { segments = some []; deleted = [] }
clean_newest_first disk retention (newest ∷ older) =
    delete_old disk (keep retention newest.position older (newest ∷ []))

-- Clean
unfoldable pub clean : Disk → ℕ → List Segment → Cleaned
unfolding clean_newest_first
clean disk retention segments =
    if retention == minus_one
    then record { segments = some segments; deleted = [] }
    else clean_newest_first disk retention (reverse segments)
