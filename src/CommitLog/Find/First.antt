-- ===== src/CommitLog/Find/First.antt =====
-- findSegment finds the first segment that ends after the offset.
use jocko.Common.{
  ℕ, zero, suc, ◌+◌, ◌/◌, ◌≤◌, ◌<◌, ◌≡◌, refl, sym, ap, subst, ◌∙◌, inl, inr, Bool, true, false,
  Option, some, List, [], ◌∷◌, length, get_elem?, arith, Bool-cases, lt→ltb, ge→ltb,
}
use mathlib.Core.Option.{some-injective}
use jocko.Common.{All}
use native.Mathlib.Decide.{dec_lt}
use jocko.CommitLog.Int64.{two_63, lt64_iff}
use jocko.CommitLog.Segment.{Segment}
use jocko.CommitLog.Find.{search, ends_after, find_segment}

-- The test fails before `r` and holds from there to `n`.
pub record IsFirst (f : ℕ → Bool) (n r : ℕ) : Type 0 where
  pub bound : r ≤ n
  pub before : (k : ℕ) → k < r → f k ≡ false
  pub from : (k : ℕ) → r ≤ k → k < n → f k ≡ true

search-IsFirst :
    (fuel : ℕ) (f : ℕ → Bool) (n i j : ℕ)
    → ((a b : ℕ) → a ≤ b → b < n → f a ≡ true → f b ≡ true)
    → j ≤ i + fuel
    → i ≤ j
    → j ≤ n
    → ((k : ℕ) → k < i → f k ≡ false)
    → ((k : ℕ) → j ≤ k → k < n → f k ≡ true)
    → IsFirst f n (search fuel f i j)
unfolding search
search-IsFirst zero f n i j mono enough ij jn below above = record {
  bound = omega arith;
  before = below;
  from = λ k h hn. above k (omega arith) hn;
}
search-IsFirst (suc fuel) f n i j mono enough ij jn below above = elim (dec_lt i j) [
  | no stop ↦ subst (IsFirst f n) (rw (ge→ltb i j (omega (arith, stop))) refl) (record {
    bound = omega arith;
    before = below;
    from = λ k h hn. above k (omega (arith, stop)) hn;
  })
  | yes more ↦
      let h = (i + j) / 2 in
      elim (Bool-cases (f h)) [
        | inl holds ↦ subst (IsFirst f n) (rw (lt→ltb i j more) (rw holds refl)) (
            search-IsFirst fuel f n i h mono (omega arith) (omega arith) (omega arith) below
              (λ k hk kn. mono h k hk kn holds))
        | inr fails ↦ subst (IsFirst f n) (rw (lt→ltb i j more) (rw fails refl)) (
            search-IsFirst fuel f n (suc h) j mono (omega arith) (omega arith) jn
              (λ k kh. still_below h k (omega arith) (omega arith) fails) above)
      ]
]
  where
    still_below : (h k : ℕ) → k ≤ h → h < n → f h ≡ false → f k ≡ false
    still_below h k kh hn fails = elim (Bool-cases (f k)) [
      | inl holds ↦ absurd (cc (mono k h kh hn holds, fails))
      | inr fails_too ↦ fails_too
    ]

-- The segments end one after the other, at offsets below 2 ^ 63.
abbrev pub EndsInOrder : List Segment → Type 0
EndsInOrder [] = Unit
EndsInOrder (s ∷ ss) =
    (s.next_offset < two_63) × (All (λ t. s.next_offset ≤ t.next_offset) ss × EndsInOrder ss)

get_elem?-All {ℓ} :
    {A : Type ℓ} (P : A → Type 0) (xs : List A) (k : ℕ)
    → All P xs
    → k < length xs
    → (x : A) × (get_elem? xs k ≡ some x) × P x
get_elem?-All P [] k h lt = absurd (omega arith)
get_elem?-All P (x ∷ xs) zero (p, h) lt = (x, refl, p)
get_elem?-All P (x ∷ xs) (suc k) (p, h) lt = get_elem?-All P xs k h (omega arith)

EndsInOrder-next : (ss : List Segment) → EndsInOrder ss → All (λ s. s.next_offset < two_63) ss
EndsInOrder-next [] h = tt
EndsInOrder-next (s ∷ ss) (b, h) = (b, EndsInOrder-next ss h.1)

ends_after_mono :
    (offset : ℕ) (ss : List Segment) (a b : ℕ)
    → offset < two_63
    → EndsInOrder ss
    → a ≤ b
    → b < length ss
    → ends_after offset (get_elem? ss a) ≡ true
    → ends_after offset (get_elem? ss b) ≡ true
ends_after_mono offset [] a b ho h ab bn e = absurd (omega arith)
ends_after_mono offset (s ∷ ss) zero zero ho h ab bn e = e
ends_after_mono offset (s ∷ ss) (suc a) zero ho h ab bn e = absurd (omega arith)
ends_after_mono offset (s ∷ ss) (suc a) (suc b) ho (p, (q, h)) ab bn e =
    ends_after_mono offset ss a b ho h (omega arith) (omega arith) e
ends_after_mono offset (s ∷ ss) zero (suc b) ho (p, (q, h)) ab bn e =
    let (t, at, le) = get_elem?-All _ ss b q (omega arith) in
    let (u, at', small) = get_elem?-All _ ss b (EndsInOrder-next ss h) (omega arith) in
    let same : u ≡ t = some-injective _ _ (sym at' ∙ at) in
    let tl : t.next_offset < two_63 = subst (λ v. v.next_offset < two_63) same small in
    ap (ends_after offset) at
    ∙ (lt64_iff offset t.next_offset ho tl).1
        (omega (arith, (lt64_iff offset s.next_offset ho p).0 e, le))

-- What findSegment comes to.
pub record IsFound (ss : List Segment) (offset : ℕ) (r : Option Segment × ℕ) : Type 0 where
  pub at : r.0 ≡ get_elem? ss r.1
  pub bound : r.1 ≤ length ss
  pub before : (k : ℕ) (s : Segment) → k < r.1 → get_elem? ss k ≡ some s → s.next_offset ≤ offset
  pub ends : (s : Segment) → r.0 ≡ some s → offset < s.next_offset

get_elem?-lt {ℓ} :
    {A : Type ℓ} (xs : List A) (k : ℕ) (x : A) → get_elem? xs k ≡ some x → k < length xs
get_elem?-lt [] k x h = cc
get_elem?-lt (y ∷ xs) zero x h = omega arith
get_elem?-lt (y ∷ xs) (suc k) x h = omega (arith, get_elem?-lt xs k x h)

next-small :
    (ss : List Segment) (k : ℕ) (s : Segment)
    → EndsInOrder ss
    → get_elem? ss k ≡ some s
    → s.next_offset < two_63
next-small ss k s h at =
    let (u, at', small) = get_elem?-All _ ss k (EndsInOrder-next ss h) (get_elem?-lt ss k s at) in
    subst (λ v. v.next_offset < two_63) (some-injective _ _ (sym at' ∙ at)) small

-- On segments that end one after the other, at offsets below 2 ^ 63, findSegment returns, for an
-- offset below 2 ^ 63, the segment at the index that it returns, or no segment and the number of
-- segments; every segment before that index ends at the offset or before, and the segment that it
-- returns ends after it.
pub find_segment-IsFound :
    (ss : List Segment) (offset : ℕ)
    → offset < two_63
    → EndsInOrder ss
    → IsFound ss offset (find_segment ss offset)
unfolding find_segment
find_segment-IsFound ss offset ho h =
    let n = length ss in
    let f : ℕ → Bool = λ i. ends_after offset (get_elem? ss i) in
    let first =
      search-IsFirst n f n 0 n (λ a b ab bn e. ends_after_mono offset ss a b ho h ab bn e)
        (omega arith) (omega arith) (omega arith) (λ k hk. absurd (omega arith))
        (λ k hk kn. absurd (omega arith)) in
    record {
      at = refl;
      bound = first.bound;
      before = λ k s hk at. elim (dec_lt offset s.next_offset) [
        | yes lt ↦ absurd (
            cc (
              first.before k hk,
              ap (ends_after offset) at
                  ∙ (lt64_iff offset s.next_offset ho (next-small ss k s h at)).1 lt,
            ))
        | no n ↦ omega (arith, n)
      ];
      ends = λ s at.
          (lt64_iff offset s.next_offset ho (next-small ss _ s h at)).0
            (ap (ends_after offset) (sym at) ∙ first.from _ (omega arith) (get_elem?-lt ss _ s at));
    }
