-- ===== src/CommitLog/Index/ReadBack.antt =====
-- An entry that is written to an index is read back, and the entries before it stay.
use jocko.Common.{
  ℕ, zero, suc, ◌+◌, ◌^◌, ◌≤◌, ◌<◌, ◌≡◌, refl, sym, ap, ap₂, ◌∙◌, List, [], ◌∷◌, ◌++◌, length, take,
  drop, length-append, take-append_self, drop-append_self, arith,
}
use mathlib.Core.List.{append-nil}
use jocko.Protocol.Binary.{
  be_bytes, of_be, write_at, length-be_bytes, of_be-be_bytes, length-write_at,
}
use jocko.CommitLog.Int64.{two_63, add64, sub64, lt64, done}
use jocko.CommitLog.Index.{
  Index, Entry, RelEntry, new_rel_entry, extend, fill, rel_bytes, write_entry, read_at, entry_of,
  read_entry_at_file_offset,
}

take-write_at :
    (m : List ℕ) (off : ℕ) (bs : List ℕ)
    → off + length bs ≤ length m
    → take (length bs) (drop off (write_at m off bs)) ≡ bs
unfolding write_at
take-write_at m off [] h = refl
take-write_at [] off (b ∷ bs) h = absurd (omega arith)
take-write_at (x ∷ xs) zero (b ∷ bs) h = ap (λ l. b ∷ l) (take-write_at xs zero bs (omega arith))
take-write_at (x ∷ xs) (suc off) (b ∷ bs) h = take-write_at xs off (b ∷ bs) (omega arith)

before-write_at :
    (m : List ℕ) (off : ℕ) (bs : List ℕ) (n o : ℕ)
    → o + n ≤ off
    → take n (drop o (write_at m off bs)) ≡ take n (drop o m)
unfolding write_at
before-write_at m off bs zero o h = refl
before-write_at [] off bs (suc n) o h = refl
before-write_at (x ∷ xs) zero bs (suc n) o h = absurd (omega arith)
before-write_at (x ∷ xs) (suc off) bs (suc n) zero h =
    ap (λ l. x ∷ l) (before-write_at xs off bs n zero (omega arith))
before-write_at (x ∷ xs) (suc off) bs (suc n) (suc o) h =
    before-write_at xs off bs (suc n) o (omega arith)

-- An entry that an int32 can tell from the base offset.
pub record Fits (e : Entry) (base : ℕ) : Type 0 where
  pub offset_from : base ≤ e.offset
  pub offset_to : e.offset < base + 2 ^ 31
  pub offset : e.offset < two_63
  pub position : e.position < 2 ^ 31

fill-new_rel_entry : (e : Entry) (base : ℕ) → Fits e base → fill (new_rel_entry e base) base ≡ e
unfolding fill new_rel_entry extend add64 sub64
fill-new_rel_entry e base h =
    let a = h.offset_from in
    let b = h.offset_to in
    let c = h.offset in
    let d = h.position in
    ap₂ (λ o p. record { offset = o; position = p }) (ground arith) (ground arith)

length-rel_bytes : (rel : RelEntry) → length (rel_bytes rel) ≡ 8
unfolding rel_bytes
length-rel_bytes rel = omega (
  arith,
  length-append (be_bytes 4 rel.offset) (be_bytes 4 rel.position),
  length-be_bytes 4 rel.offset,
  length-be_bytes 4 rel.position,
)

offset-rel_bytes : (rel : RelEntry) → take 4 (rel_bytes rel) ≡ be_bytes 4 rel.offset
unfolding rel_bytes
offset-rel_bytes rel =
    ap (λ n. take n (be_bytes 4 rel.offset ++ be_bytes 4 rel.position))
      (sym (length-be_bytes 4 rel.offset))
    ∙ take-append_self (be_bytes 4 rel.offset) (be_bytes 4 rel.position)

position-rel_bytes : (rel : RelEntry) → take 4 (drop 4 (rel_bytes rel)) ≡ be_bytes 4 rel.position
unfolding rel_bytes
position-rel_bytes rel =
    ap (λ n. take 4 (drop n (be_bytes 4 rel.offset ++ be_bytes 4 rel.position)))
      (sym (length-be_bytes 4 rel.offset))
    ∙ ap (take 4) (drop-append_self (be_bytes 4 rel.offset) (be_bytes 4 rel.position))
    ∙ ap (take 4) (sym (append-nil (be_bytes 4 rel.position)))
    ∙ ap (λ n. take n (be_bytes 4 rel.position ++ [])) (sym (length-be_bytes 4 rel.position))
    ∙ take-append_self (be_bytes 4 rel.position) []

entry_of-rel_bytes :
    (e : Entry) (base : ℕ)
    → Fits e base
    → entry_of base (done (rel_bytes (new_rel_entry e base))) ≡ done e
unfolding new_rel_entry entry_of
entry_of-rel_bytes e base h =
    ap₂ (λ o p. done (fill (record { offset = o; position = p }) base))
      (ap of_be (offset-rel_bytes (new_rel_entry e base)) ∙ of_be-be_bytes 4 _ (omega arith))
      (ap of_be (position-rel_bytes (new_rel_entry e base)) ∙ of_be-be_bytes 4 _ (omega arith))
    ∙ ap done (fill-new_rel_entry e base h)

-- The index `idx` with `e` written after its entries.
pub record IsWritten (e : Entry) (idx idx' : Index) : Type 0 where
  pub written : write_entry e idx ≡ done idx'
  pub position : idx'.position ≡ idx.position + 8
  pub size : length idx'.mmap ≡ length idx.mmap
  pub last : read_entry_at_file_offset idx.position idx' ≡ done e
  pub before :
      (o : ℕ)
      → o + 8 ≤ idx.position
      → read_entry_at_file_offset o idx' ≡ read_entry_at_file_offset o idx

abbrev after_write : Entry → Index → Index
unfolding new_rel_entry rel_bytes
after_write e idx = record idx {
  mmap = write_at idx.mmap idx.position (rel_bytes (new_rel_entry e idx.base_offset));
  position = idx.position + 8;
}

-- Inside the part of the map that is written, ReadAt returns the bytes.
read_at-in_range :
    (o : ℕ) (idx : Index)
    → o + 8 ≤ idx.position
    → idx.position ≤ length idx.mmap
    → idx.position < two_63
    → read_at o idx ≡ done (take 8 (drop o idx.mmap))
unfolding read_at lt64 add64
read_at-in_range o idx h hm hp = ground arith

-- WriteEntry of an entry that an int32 can tell from the base offset, in an index with room for it and
-- smaller than 2 ^ 63 bytes, succeeds; the entry is read back at the end of the entries that were
-- there, and every entry before it reads as before.
pub write_entry-IsWritten :
    (e : Entry) (idx : Index)
    → Fits e idx.base_offset
    → idx.position + 8 ≤ length idx.mmap
    → length idx.mmap < two_63
    → (idx' : Index) × IsWritten e idx idx'
unfolding write_entry after_write read_entry_at_file_offset
write_entry-IsWritten e idx fits room small =
    let rel = rel_bytes (new_rel_entry e idx.base_offset) in
    let idx' = after_write e idx in
    let eight = length-rel_bytes (new_rel_entry e idx.base_offset) in
    let size = length-write_at idx.mmap idx.position rel in
    (
      idx',
      record {
        written = ground arith;
        position = refl;
        size = size;
        last =
            ap (entry_of idx.base_offset)
              (read_at-in_range idx.position idx' (omega arith) (omega (arith, size)) (omega arith))
            ∙ ap (λ p. entry_of idx.base_offset (done p))
                (ap (λ n. take n (drop idx.position idx'.mmap)) (sym eight)
                  ∙ take-write_at idx.mmap idx.position rel (omega (arith, eight)))
            ∙ entry_of-rel_bytes e idx.base_offset fits;
        before = λ o h. ap (entry_of idx.base_offset) (
            read_at-in_range o idx' (omega arith) (omega (arith, size)) (omega arith)
            ∙ ap done (before-write_at idx.mmap idx.position rel 8 o h)
            ∙ sym (read_at-in_range o idx h (omega arith) (omega arith)));
      },
    )
