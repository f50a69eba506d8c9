-- ===== src/CommitLog/Log/Truncates.antt =====
-- Which segments Truncate leaves.
use jocko.Common.{
  ℕ, ◌≡◌, refl, sym, ap, ◌∙◌, Bool, true, false, not, ◌&&◌, some, List, [], ◌∷◌, ◌++◌, Bool-cases,
  inl, inr, if◌then◌else◌,
}
use jocko.CommitLog.Int64.{lt64}
use jocko.CommitLog.Segment.{Segment, Disk}
use jocko.CommitLog.Log.{CommitLog, segments, front, truncate_all, truncated, truncate}
use jocko.CommitLog.Log.Chain.{front-snoc}
use mathlib.Core.Option

-- The segments that begin at the offset or later.
unfoldable pub starting_from : ℕ → List Segment → List Segment
starting_from offset [] = []
starting_from offset (s ∷ ss) =
    let rest = starting_from offset ss in if lt64 s.base_offset offset then rest else s ∷ rest

truncate_all-removes :
    (disk : Disk) (offset : ℕ) (ss : List Segment)
    → ((s : Segment) → disk.removes s ≡ true)
    → truncate_all disk offset ss ≡ some (starting_from offset ss)
unfolding truncate_all starting_from
truncate_all-removes disk offset [] h = refl
truncate_all-removes disk offset (s ∷ ss) h = elim (Bool-cases (lt64 s.base_offset offset)) [
  | inl below ↦ rw below (rw (h s) (truncate_all-removes disk offset ss h))
  | inr no_less ↦
      rw no_less (ap (Option.map (λ kept. s ∷ kept)) (truncate_all-removes disk offset ss h))
]

starting_from-snoc :
    (offset : ℕ) (ss : List Segment) (s : Segment)
    → lt64 s.base_offset offset ≡ false
    → starting_from offset (ss ++ s ∷ []) ≡ starting_from offset ss ++ s ∷ []
unfolding starting_from
starting_from-snoc offset [] s h = rw h refl
starting_from-snoc offset (t ∷ ss) s h = elim (Bool-cases (lt64 t.base_offset offset)) [
  | inl below ↦ rw below (starting_from-snoc offset ss s h)
  | inr no_less ↦ rw no_less (ap (λ l. t ∷ l) (starting_from-snoc offset ss s h))
]

-- The case of the list that still holds the active segment.
truncated-active :
    (offset : ℕ) (l : CommitLog) (below : Bool)
    → lt64 l.active.base_offset offset ≡ below
    → segments (truncated (not below) (some (starting_from offset (l.older ++ l.active ∷ []))) l).0
      ≡ starting_from offset (l.older ++ l.active ∷ [])
truncated-active offset l true h = refl
truncated-active offset l false h =
    ap (λ ss. front ss ++ l.active ∷ []) (starting_from-snoc offset l.older l.active h)
    ∙ ap (λ ss. ss ++ l.active ∷ []) (front-snoc (starting_from offset l.older) l.active)
    ∙ sym (starting_from-snoc offset l.older l.active h)

truncated-segments :
    (offset : ℕ) (l : CommitLog) (listed : Bool)
    → segments
        (truncated
          (listed && not (lt64 l.active.base_offset offset))
          (some (starting_from offset (if listed then l.older ++ l.active ∷ [] else l.older)))
          l).0
      ≡ starting_from offset (if listed then l.older ++ l.active ∷ [] else l.older)
truncated-segments offset l true = truncated-active offset l (lt64 l.active.base_offset offset) refl
truncated-segments offset l false = refl

-- When no deletion fails, Truncate leaves exactly the segments of the log that begin at the offset or
-- later, in their order, whether or not the active segment is one of them.
pub truncate-segments :
    (disk : Disk) (offset : ℕ) (l : CommitLog)
    → ((s : Segment) → disk.removes s ≡ true)
    → segments (truncate disk offset l).0 ≡ starting_from offset (segments l)
unfolding truncate
truncate-segments disk offset l h =
    ap (λ o. segments (truncated (l.listed && not (lt64 l.active.base_offset offset)) o l).0)
      (truncate_all-removes disk offset (segments l) h)
    ∙ truncated-segments offset l l.listed
