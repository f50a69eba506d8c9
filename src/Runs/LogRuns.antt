-- ===== src/Runs/LogRuns.antt =====
-- Runs of the commit log, on a disk where nothing fails.
use jocko.Common.{ℕ, ◌<◌, ◌≡◌, refl, true, false, some, List, [], ◌∷◌, ◌++◌, replicate, arith}
use jocko.CommitLog.Int64.{add64, lt64, done}
use jocko.CommitLog.Index.{Index, Entry}
use jocko.CommitLog.Index.ReadBack.{IsWritten, write_entry-IsWritten}
use jocko.CommitLog.Segment.{Segment, Disk, all, is_full}
use jocko.CommitLog.DeleteCleaner.{keep, delete_all, delete_old, clean_newest_first, clean}
use jocko.CommitLog.DeleteCleaner.Retains.{total_bytes}
use jocko.CommitLog.DeleteCleaner.Cleans.{IsRetained, clean-IsRetained}
use jocko.CommitLog.Log.{CommitLog, append, truncate, truncate_all, oldest_offset}
use jocko.CommitLog.Find.{find_segment, search}
use jocko.CommitLog.Find.First.{IsFound, find_segment-IsFound}
use jocko.CommitLog.Log.{segments}
use jocko.CommitLog.Log.Truncates.{starting_from, truncate-segments}
use jocko.CommitLog.Log.Chain.{IsConsecutive, append-IsConsecutive}
use jocko.CommitLog.Log.Appends.{IsAppended, append-IsAppended}

abbrev good_disk : Disk
good_disk = record { opens = λ base. true; writes = λ s p. all; removes = λ s. true }

abbrev small_index : ℕ → Index
small_index base = record { base_offset = base; mmap = replicate 16 0; position = 0 }

abbrev segment : ℕ → ℕ → ℕ → Segment
segment base next position = record {
  base_offset = base;
  next_offset = next;
  position = position;
  max_bytes = 40;
  log = replicate position 0;
  index = small_index base;
}

abbrev old_segments : List Segment
old_segments = segment 0 3 50 ∷ segment 3 5 40 ∷ []

-- The cleaner keeps 70 bytes of 120: the oldest segment would go over the 80 that are allowed.
clean_test : clean good_disk 80 (old_segments ++ segment 5 6 30 ∷ []) ≡ record {
  segments = some (segment 3 5 40 ∷ segment 5 6 30 ∷ []);
  deleted = segment 0 3 50 ∷ [];
}
unfolding clean clean_newest_first keep delete_old delete_all lt64 add64
clean_test = refl

old_segments_total : total_bytes (old_segments ++ segment 5 6 30 ∷ []) < 9223372036854775808
unfolding total_bytes
old_segments_total = omega arith

clean-IsRetained_example :
    IsRetained 80 old_segments
      (segment 5 6 30)
      (clean good_disk 80 (old_segments ++ segment 5 6 30 ∷ []))
clean-IsRetained_example =
    clean-IsRetained good_disk 80 old_segments (segment 5 6 30) (λ s. refl) (omega arith)
      old_segments_total

abbrev entry_4 : Entry
entry_4 = record { offset = 4; position = 20 }

write_entry-IsWritten_example : (idx' : Index) × IsWritten entry_4 (small_index 3) idx'
write_entry-IsWritten_example =
    write_entry-IsWritten entry_4 (small_index 3)
      (record {
        offset_from = omega arith;
        offset_to = omega arith;
        offset = omega arith;
        position = omega arith;
      })
      (omega arith) (omega arith)

abbrev sample_log : Segment → CommitLog
sample_log active = record {
  older = old_segments;
  listed = true;
  active = active;
  max_segment_bytes = 40;
  max_log_bytes = 80;
}

abbrev message_set : List ℕ
message_set = replicate 12 7

abbrev full_log : CommitLog
full_log = sample_log (segment 5 6 40)

full_log_is_full : is_full (segment 5 6 40) ≡ true
unfolding is_full lt64
full_log_is_full = refl

append-IsConsecutive_example : IsConsecutive (append good_disk message_set full_log).0
append-IsConsecutive_example =
    append-IsConsecutive good_disk message_set full_log
      (record { listed = refl; links = (refl, (refl, tt)) })

abbrev open_log : CommitLog
open_log = sample_log (segment 5 6 30)

open_log_has_space : is_full (segment 5 6 30) ≡ false
unfolding is_full lt64
open_log_has_space = refl

append-IsAppended_example : IsAppended message_set open_log (append good_disk message_set open_log)
append-IsAppended_example =
    append-IsAppended good_disk message_set open_log open_log_has_space (λ s p. refl) (omega arith)
      (record {
        offset_from = omega arith;
        offset_to = omega arith;
        offset = omega arith;
        position = omega arith;
      })
      (omega arith) (omega arith)

-- Truncate at 3 deletes the segment that begins below 3.
truncate_test : oldest_offset (truncate good_disk 3 open_log).0 ≡ done 3
unfolding truncate truncate_all lt64
truncate_test = refl

find_segment_test : (find_segment (old_segments ++ segment 5 6 30 ∷ []) 3).1 ≡ 1
unfolding find_segment search lt64
find_segment_test = refl

find_segment-IsFound_example : IsFound old_segments 3 (find_segment old_segments 3)
find_segment-IsFound_example =
    find_segment-IsFound old_segments 3 (omega arith)
      (omega arith, ((omega arith, tt), (omega arith, (tt, tt))))

truncate-segments_example :
    segments (truncate good_disk 3 open_log).0 ≡ starting_from 3 (segments open_log)
truncate-segments_example = truncate-segments good_disk 3 open_log (λ s. refl)
