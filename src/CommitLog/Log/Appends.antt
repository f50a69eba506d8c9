-- ===== src/CommitLog/Log/Appends.antt =====
-- What an append that meets no failure leaves on the log and in the index.
use jocko.Common.{
  ℕ, ◌+◌, ◌≤◌, ◌<◌, ◌≡◌, refl, sym, ap, subst, ◌∙◌, false, List, ◌++◌, length, ge→ltb,
}
use jocko.Protocol.Binary.{be_bytes, write_at, length-write_at}
use jocko.CommitLog.Int64.{two_63, add64, Reply, done}
use jocko.CommitLog.Index.{Entry, write_entry}
use jocko.CommitLog.Index.ReadBack.{Fits, IsWritten, write_entry-IsWritten}
use jocko.CommitLog.Segment.{Segment, Disk, all, is_full, written, write}
use jocko.CommitLog.Log.{CommitLog, newest_offset, indexed, append_active, append}

-- The message set with its offset put in.
abbrev pub with_offset : List ℕ → ℕ → List ℕ
with_offset b offset = write_at b 0 (be_bytes 8 offset)

-- Where the next message set goes.
abbrev pub next_entry : CommitLog → Entry
next_entry l = record { offset = newest_offset l; position = l.active.position }

pub record IsAppended (b : List ℕ) (l : CommitLog) (r : CommitLog × Reply ℕ) : Type 0 where
  pub offset : r.1 ≡ done (newest_offset l)
  pub next : newest_offset r.0 ≡ add64 (newest_offset l) 1
  pub position : r.0.active.position ≡ add64 l.active.position (length b)
  pub log : r.0.active.log ≡ l.active.log ++ with_offset b (newest_offset l)
  pub older : r.0.older ≡ l.older
  pub entry : IsWritten (next_entry l) l.active.index r.0.active.index

append_active-eq :
    (disk : Disk) (b : List ℕ) (l : CommitLog)
    → ((s : Segment) (p : List ℕ) → disk.writes s p ≡ all)
    → 8 ≤ length b
    → append_active disk b l
      ≡ indexed
          (newest_offset l)
          (written (with_offset b (newest_offset l)) all l.active).0
          (write_entry (next_entry l) l.active.index)
          l
unfolding append_active write
append_active-eq disk b l writes long =
    rw (ge→ltb (length b) 8 long) (rw (writes l.active (with_offset b (newest_offset l))) refl)

append-eq :
    (disk : Disk) (b : List ℕ) (l : CommitLog)
    → is_full l.active ≡ false
    → append disk b l ≡ append_active disk b l
unfolding append
append-eq disk b l h = rw h refl

-- Append of a message set of at least eight bytes to an active segment that is not full, on a disk
-- that takes the write, and with an index that has room for the entry, is below 2 ^ 63 bytes and can tell
-- the offset and the position from its base offset, returns the newest offset, which goes up by one.
-- The log file ends in the message set with that offset in its first eight bytes, the older segments
-- stay, and the entry of the offset is read back from the index, after the entries that were there.
pub append-IsAppended :
    (disk : Disk) (b : List ℕ) (l : CommitLog)
    → is_full l.active ≡ false
    → ((s : Segment) (p : List ℕ) → disk.writes s p ≡ all)
    → 8 ≤ length b
    → Fits (next_entry l) l.active.index.base_offset
    → l.active.index.position + 8 ≤ length l.active.index.mmap
    → length l.active.index.mmap < two_63
    → IsAppended b l (append disk b l)
append-IsAppended disk b l space writes long fits room small =
    let (idx, w) = write_entry-IsWritten (next_entry l) l.active.index fits room small in
    let p = with_offset b (newest_offset l) in
    let s = (written p all l.active).0 in
    let e : append disk b l
        ≡ (record l { active = record s { index = idx } }, done (newest_offset l)) =
      append-eq disk b l space
      ∙ append_active-eq disk b l writes long
      ∙ ap (λ r. indexed (newest_offset l) s r l) w.written in
    subst (IsAppended b l) (sym e) (record {
      offset = refl;
      next = refl;
      position = ap (add64 l.active.position) (length-write_at b 0 (be_bytes 8 (newest_offset l)));
      log = refl;
      older = refl;
      entry = w;
    })
