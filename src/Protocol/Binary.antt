-- ===== src/Protocol/Binary.antt =====
-- Big-endian numbers, as `Encoding` (protocol/protocol.go) reads and writes them, and the writes
-- into a byte slice in place.
use jocko.Common.{ℕ, zero, suc, ◌+◌, ◌*◌, ◌/◌, ◌%◌, ◌^◌, ◌≤◌, ◌<◌, ◌≡◌, refl, sym, ap, ◌∙◌}
use jocko.Common.{List, [], ◌∷◌, ◌++◌, length, length-append, replicate, arith}
use mathlib.Core.List.{foldl, foldl-append}
use Prim.Native.Nat.add
use native.Mathlib.Nat.{pow-suc}

-- The `w` low bytes of a number, the highest first.
unfoldable pub be_bytes : ℕ → ℕ → List ℕ
be_bytes zero v = []
be_bytes (suc w) v = be_bytes w (v / 256) ++ (v % 256) ∷ []

unfoldable pub of_be : List ℕ → ℕ
of_be bs = foldl (λ acc b. acc * 256 + b) 0 bs

pub length-be_bytes : (w v : ℕ) → length (be_bytes w v) ≡ w
unfolding be_bytes
length-be_bytes zero v = refl
length-be_bytes (suc w) v =
    omega
      (arith, length-append (be_bytes w (v / 256)) ((v % 256) ∷ []), length-be_bytes w (v / 256))

of_be-snoc : (bs : List ℕ) (b : ℕ) → of_be (bs ++ b ∷ []) ≡ of_be bs * 256 + b
unfolding of_be
of_be-snoc bs b = rw foldl-append

-- Reading what was written gives the number, if `w` bytes hold it.
pub of_be-be_bytes : (w v : ℕ) → v < 256 ^ w → of_be (be_bytes w v) ≡ v
unfolding be_bytes
of_be-be_bytes zero v h = unfold of_be in omega arith
of_be-be_bytes (suc w) v h = omega (
  arith,
  of_be-snoc (be_bytes w (v / 256)) (v % 256),
  of_be-be_bytes w (v / 256) (omega (arith, pow-suc 256 w)),
)

-- copy(b[off:], bs): stops at the end of the slice. For off at most the length of b.
unfoldable pub write_at : List ℕ → ℕ → List ℕ → List ℕ
write_at [] off bs = []
write_at (x ∷ xs) (suc off) bs = x ∷ write_at xs off bs
write_at (x ∷ xs) zero [] = x ∷ xs
write_at (x ∷ xs) zero (b ∷ bs) = b ∷ write_at xs zero bs

pub length-write_at :
    (xs : List ℕ) (off : ℕ) (bs : List ℕ) → length (write_at xs off bs) ≡ length xs
unfolding write_at
length-write_at [] off bs = refl
length-write_at (x ∷ xs) (suc off) bs = ap suc (length-write_at xs off bs)
length-write_at (x ∷ xs) zero [] = refl
length-write_at (x ∷ xs) zero (b ∷ bs) = ap suc (length-write_at xs zero bs)

write_at-nil : (xs : List ℕ) (off : ℕ) → write_at xs off [] ≡ xs
unfolding write_at
write_at-nil [] off = refl
write_at-nil (x ∷ xs) zero = refl
write_at-nil (x ∷ xs) (suc off) = ap (λ ys. x ∷ ys) (write_at-nil xs off)

-- A write over the first bytes of a free tail.
write_at-free :
    (bs : List ℕ) (k : ℕ) → write_at (replicate (length bs + k) 0) 0 bs ≡ bs ++ replicate k 0
unfolding write_at
write_at-free [] k = write_at-nil (replicate (0 + k) 0) 0 ∙ rw add.zero
write_at-free (b ∷ bs) k = rw add.suc (ap (λ ys. b ∷ ys) (write_at-free bs k))

-- A write where the bytes still free begin.
pub write_at-end :
    (xs bs : List ℕ) (k : ℕ)
    → write_at (xs ++ replicate (length bs + k) 0) (length xs) bs ≡ xs ++ (bs ++ replicate k 0)
unfolding write_at
write_at-end [] bs k = write_at-free bs k
write_at-end (x ∷ xs) bs k = ap (λ ys. x ∷ ys) (write_at-end xs bs k)

-- A write that ends before a tail leaves the tail alone.
pub write_at-append :
    (xs ys : List ℕ) (off : ℕ) (bs : List ℕ)
    → off + length bs ≤ length xs
    → write_at (xs ++ ys) off bs ≡ write_at xs off bs ++ ys
unfolding write_at
write_at-append xs ys off [] h =
    write_at-nil (xs ++ ys) off ∙ ap (λ zs. zs ++ ys) (sym (write_at-nil xs off))
write_at-append [] ys off (b ∷ bs) h = absurd (omega arith)
write_at-append (x ∷ xs) ys zero (b ∷ bs) h =
    ap (λ zs. b ∷ zs) (write_at-append xs ys 0 bs (omega arith))
write_at-append (x ∷ xs) ys (suc off) (b ∷ bs) h =
    ap (λ zs. x ∷ zs) (write_at-append xs ys off (b ∷ bs) (omega arith))
