-- ===== src/CommitLog/Log/Chain.antt =====
-- The segments of a log follow each other without a gap, whatever is appended.
use jocko.Common.{
  ℕ, ◌≡◌, refl, sym, ap, subst, ◌∙◌, Bool, true, false, Option, none, some, List, [], ◌∷◌, ◌++◌,
  length, ltb, if◌then◌else◌,
}
use jocko.Protocol.Binary.{be_bytes, write_at}
use jocko.CommitLog.Int64.{Reply, done, failed, panicked, disk_error}
use jocko.CommitLog.Index.{Index, write_entry}
use jocko.CommitLog.Segment.{
  Segment, Disk, Written, all, some_of, new_segment, is_full, written, write,
}
use jocko.CommitLog.DeleteCleaner.{clean}
use jocko.CommitLog.DeleteCleaner.Cleans.{clean-Suffix}
use jocko.CommitLog.Log.{
  CommitLog, segments, newest_offset, front, split_into, split, indexed, append_active, append,
}

abbrev pub first_base : List Segment → ℕ → ℕ
first_base [] n = n
first_base (s ∷ ss) n = s.base_offset

-- Each segment ends where the next one begins, and the last one at `n`.
abbrev pub Links : List Segment → ℕ → Type 0
Links [] n = Unit
Links (s ∷ ss) n = (s.next_offset ≡ first_base ss n) × Links ss n

-- The active segment is the last of the list, and the segments leave no gap between them.
pub record IsConsecutive (l : CommitLog) : Type 0 where
  pub listed : l.listed ≡ true
  pub links : Links l.older l.active.base_offset

Links-snoc :
    (ss : List Segment) (s : Segment) → Links ss s.base_offset → Links (ss ++ s ∷ []) s.next_offset
Links-snoc [] s h = (refl, tt)
Links-snoc (t ∷ []) s (e, h) = (e, (refl, tt))
Links-snoc (t ∷ u ∷ ss) s (e, h) = (e, Links-snoc (u ∷ ss) s h)

Links-suffix : (gone ss : List Segment) (n : ℕ) → Links (gone ++ ss) n → Links ss n
Links-suffix [] ss n h = h
Links-suffix (s ∷ gone) ss n (e, h) = Links-suffix gone ss n h

pub front-snoc : (ss : List Segment) (s : Segment) → front (ss ++ s ∷ []) ≡ ss
front-snoc [] s = refl
front-snoc (t ∷ []) s = refl
front-snoc (t ∷ u ∷ ss) s = ap (λ r. t ∷ r) (front-snoc (u ∷ ss) s)

split_into-IsConsecutive :
    (new : Segment) (o : Option (List Segment)) (l : CommitLog)
    → IsConsecutive l
    → ((kept : List Segment) → o ≡ some kept → Links (front kept) new.base_offset)
    → IsConsecutive (split_into new o l).0
split_into-IsConsecutive new none l h links = h
split_into-IsConsecutive new (some kept) l h links = record {
  listed = refl;
  links = links kept refl;
}

-- The new segment begins where the active one ends, and the cleaner drops old segments only.
split-Links :
    (disk : Disk) (l : CommitLog) (kept : List Segment)
    → IsConsecutive l
    → (clean disk l.max_log_bytes
        (segments l ++ new_segment (newest_offset l) l.max_segment_bytes ∷ [])).segments
      ≡ some kept
    → Links (front kept) (newest_offset l)
split-Links disk l kept h e =
    let s = clean-Suffix disk l.max_log_bytes (segments l) _ kept e in
    subst (λ ss. Links ss (newest_offset l)) (sym (ap front s.returned ∙ front-snoc s.kept _))
      (Links-suffix s.gone s.kept (newest_offset l) (
        subst (λ ss. Links ss (newest_offset l)) (listed_segments ∙ sym s.parts)
          (Links-snoc l.older l.active h.links)))
  where
    listed_segments : l.older ++ l.active ∷ [] ≡ segments l
    listed_segments = rw h.listed refl

split-IsConsecutive :
    (disk : Disk) (l : CommitLog) → IsConsecutive l → IsConsecutive (split disk l).0
unfolding split new_segment
split-IsConsecutive disk l h = go (disk.opens (newest_offset l))
  where
    new : Segment
    new = new_segment (newest_offset l) l.max_segment_bytes

    go :
        (opened : Bool)
        → IsConsecutive
            (if opened
              then split_into new (clean disk l.max_log_bytes (segments l ++ new ∷ [])).segments l
              else (l, false)).0
    go true = split_into-IsConsecutive new _ l h (λ kept e. split-Links disk l kept h e)
    go false = h

active-IsConsecutive :
    (l : CommitLog) (s : Segment)
    → s.base_offset ≡ l.active.base_offset
    → IsConsecutive l
    → IsConsecutive (record l { active = s })
active-IsConsecutive l s e h = record {
  listed = h.listed;
  links = subst (Links l.older) (sym e) h.links;
}

written-base_offset :
    (p : List ℕ) (w : Written) (s : Segment) → (written p w s).0.base_offset ≡ s.base_offset
written-base_offset p all s = refl
written-base_offset p (some_of n) s = refl

indexed-IsConsecutive :
    (offset : ℕ) (s : Segment) (r : Reply Index) (l : CommitLog)
    → s.base_offset ≡ l.active.base_offset
    → IsConsecutive l
    → IsConsecutive (indexed offset s r l).0
indexed-IsConsecutive offset s (done idx) l e h =
    active-IsConsecutive l (record s { index = idx }) e h
indexed-IsConsecutive offset s (failed er) l e h = active-IsConsecutive l s e h
indexed-IsConsecutive offset s panicked l e h = active-IsConsecutive l s e h

append_active-IsConsecutive :
    (disk : Disk) (b : List ℕ) (l : CommitLog)
    → IsConsecutive l
    → IsConsecutive (append_active disk b l).0
unfolding append_active write
append_active-IsConsecutive disk b l h =
    go (ltb (length b) 8) (written p (disk.writes l.active p) l.active)
      (written-base_offset p (disk.writes l.active p) l.active)
  where
    p : List ℕ
    p = write_at b 0 (be_bytes 8 l.active.next_offset)

    go :
        (short : Bool) (w : Segment × Bool)
        → w.0.base_offset ≡ l.active.base_offset
        → IsConsecutive
            (if short
              then (l, panicked)
              else if w.1
              then indexed l.active.next_offset w.0
                  (write_entry
                    (record { offset = l.active.next_offset; position = l.active.position })
                    w.0.index)
                  l
              else (record l { active = w.0 }, failed disk_error)).0
    go true w e = h
    go false (s, true) e = indexed-IsConsecutive _ s _ l e h
    go false (s, false) e = active-IsConsecutive l s e h

-- Append, whether it returns an offset, fails on the disk or panics, leaves a log whose active segment
-- is the last of the list and whose segments begin where the one before ends, if the log was like
-- that; so a segment that is split off, and segments that the cleaner drops, leave no gap.
pub append-IsConsecutive :
    (disk : Disk) (b : List ℕ) (l : CommitLog) → IsConsecutive l → IsConsecutive (append disk b l).0
unfolding append
append-IsConsecutive disk b l h = go (is_full l.active) (split disk l).1
  where
    go :
        (full fine : Bool)
        → IsConsecutive
            (if full
              then if fine
                then append_active disk b (split disk l).0
                else ((split disk l).0, failed disk_error)
              else append_active disk b l).0
    go true true =
        append_active-IsConsecutive disk b (split disk l).0 (split-IsConsecutive disk l h)
    go true false = split-IsConsecutive disk l h
    go false fine = append_active-IsConsecutive disk b l h
