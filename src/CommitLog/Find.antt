-- ===== src/CommitLog/Find.antt =====
-- findSegment of commitlog/util.go, with the binary search of sort.Search.
pub mod First
use jocko.Common.{
  ℕ, zero, suc, ◌+◌, ◌/◌, Bool, true, false, Option, none, some, List, length, get_elem?, ltb,
  if◌then◌else◌,
}
use jocko.CommitLog.Int64.{lt64}
use jocko.CommitLog.Segment.{Segment}

-- sort.Search between i and j. Each step makes j - i smaller, so that fuel of j - i is enough.
unfoldable pub search : ℕ → (ℕ → Bool) → ℕ → ℕ → ℕ
search zero f i j = i
search (suc fuel) f i j =
    let h = (i + j) / 2 in
    let low = search fuel f i h in
    let high = search fuel f (suc h) j in if ltb i j then if f h then low else high else i

abbrev pub ends_after : ℕ → Option Segment → Bool
ends_after offset none = false
ends_after offset (some s) = lt64 offset s.next_offset

-- findSegment: `get_elem?` is `none` past the end, where idx is n.
unfoldable pub find_segment : List Segment → ℕ → Option Segment × ℕ
unfolding search
find_segment segments offset =
    let n = length segments in
    let idx = search n (λ i. ends_after offset (get_elem? segments i)) 0 n in
    (get_elem? segments idx, idx)
