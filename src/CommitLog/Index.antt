-- ===== src/CommitLog/Index.antt =====
-- commitlog/index.go: the index of a segment, a memory-mapped file of entries of eight bytes. The
-- field `mmap` is the mapped file and `position` the number of its bytes that are written.
pub mod ReadBack
use jocko.Common.{
  ℕ, ◌+◌, ◌-◌, ◌*◌, ◌/◌, ◌%◌, ◌^◌, Bool, List, ◌++◌, length, take, drop, replicate, ltb, ◌==◌,
  if◌then◌else◌,
}
use jocko.Protocol.Binary.{be_bytes, of_be, write_at}
use jocko.CommitLog.Int64.{
  two_64, add64, sub64, lt64, Reply, done, failed, panicked, eof, index_corrupt,
  bad_truncate_number,
}

pub record Index : Type 0 where
  pub base_offset : ℕ
  pub mmap : List ℕ
  pub position : ℕ

pub record Entry : Type 0 where
  pub offset : ℕ
  pub position : ℕ

-- An entry relative to the base offset, as the bits of its two int32.
pub record RelEntry : Type 0 where
  pub offset : ℕ
  pub position : ℕ

unfoldable pub round_down : ℕ → ℕ → ℕ
round_down total factor = factor * (total / factor)

-- NewIndex on a file that is not there yet; no bytes stand for the default size.
unfoldable pub new_index : ℕ → ℕ → Index
unfolding round_down
new_index base bytes = record {
  base_offset = base;
  mmap = replicate (round_down (if bytes == 0 then 10485760 else bytes) 8) 0;
  position = 0;
}

unfoldable pub new_rel_entry : Entry → ℕ → RelEntry
new_rel_entry e base = record {
  offset = sub64 e.offset base % 2 ^ 32;
  position = e.position % 2 ^ 32;
}

-- int64 of an int32
unfoldable pub extend : ℕ → ℕ
extend v = if ltb v (2 ^ 31) then v else v + (two_64 - 2 ^ 32)

unfoldable pub fill : RelEntry → ℕ → Entry
unfolding extend
fill rel base = record { offset = add64 base (extend rel.offset); position = extend rel.position }

-- The bytes that binary.Write makes of an entry.
unfoldable pub rel_bytes : RelEntry → List ℕ
rel_bytes rel = be_bytes 4 rel.offset ++ be_bytes 4 rel.position

-- WriteEntry; the slice of WriteAt panics past the end of the map.
unfoldable pub write_entry : Entry → Index → Reply Index
unfolding new_rel_entry rel_bytes
write_entry e idx =
    if ltb (length idx.mmap) (idx.position + 8)
    then panicked
    else done (record idx {
      mmap = write_at idx.mmap idx.position (rel_bytes (new_rel_entry e idx.base_offset));
      position = idx.position + 8;
    })

-- ReadAt, for the eight bytes of an entry. A negative offset passes the test and panics.
unfoldable pub read_at : ℕ → Index → Reply (List ℕ)
read_at offset idx =
    if lt64 idx.position (add64 offset 8)
    then failed eof
    else if ltb (length idx.mmap) (offset + 8)
    then panicked
    else done (take 8 (drop offset idx.mmap))

abbrev pub entry_of : ℕ → Reply (List ℕ) → Reply Entry
unfolding fill
entry_of base (done p) =
    done (fill (record { offset = of_be (take 4 p); position = of_be (take 4 (drop 4 p)) }) base)
entry_of base (failed e) = failed e
entry_of base panicked = panicked

unfoldable pub read_entry_at_file_offset : ℕ → Index → Reply Entry
unfolding read_at
read_entry_at_file_offset offset idx = entry_of idx.base_offset (read_at offset idx)

unfoldable pub read_entry_at_log_offset : ℕ → Index → Reply Entry
unfolding read_entry_at_file_offset
read_entry_at_log_offset offset idx = read_entry_at_file_offset (offset * 8 % two_64) idx

-- TruncateEntries, for a number that is not negative; the product wraps.
unfoldable pub truncate_entries : ℕ → Index → Reply Index
truncate_entries number idx =
    let size = number * 8 % two_64 in
    if lt64 idx.position size
    then failed bad_truncate_number
    else done (record idx { position = size })

abbrev pub checked : ℕ → Reply Entry → Reply (Unit {0})
checked base (done e) = if lt64 e.offset base then failed index_corrupt else done tt
checked base (failed e) = failed e
checked base panicked = panicked

unfoldable pub sanity_check : Index → Reply (Unit {0})
unfolding read_entry_at_file_offset
sanity_check idx =
    if idx.position == 0
    then done tt
    else if idx.position % 8 == 0
    then checked idx.base_offset (read_entry_at_file_offset (idx.position - 8) idx)
    else failed index_corrupt
