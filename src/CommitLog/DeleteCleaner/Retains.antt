-- ===== src/CommitLog/DeleteCleaner/Retains.antt =====
-- What the first loop of the delete cleaner keeps.
use jocko.Common.{
  ℕ, ◌+◌, ◌≤◌, ◌<◌, ◌≡◌, refl, sym, ap, subst, ◌∙◌, ◌⊎◌, inl, inr, true, false, List, [], ◌∷◌, ◌++◌,
  arith, Bool-cases,
}
use native.Mathlib.Decide.{dec_lt}
use mathlib.Core.List.{reverse, reverse-cons, append_assoc, append-nil}
use jocko.CommitLog.Int64.{two_63, add64, lt64, lt64_iff}
use jocko.CommitLog.Segment.{Segment}
use jocko.CommitLog.DeleteCleaner.{keep}

-- The bytes of some segments.
unfoldable pub total_bytes : List Segment → ℕ
total_bytes [] = 0
total_bytes (s ∷ ss) = s.position + total_bytes ss

pub total_bytes-append :
    (xs ys : List Segment) → total_bytes (xs ++ ys) ≡ total_bytes xs + total_bytes ys
unfolding total_bytes
total_bytes-append [] ys = omega arith
total_bytes-append (x ∷ xs) ys = omega (arith, total_bytes-append xs ys)

-- The next older segment, the first of these, would go over the retention.
abbrev pub Maximal : ℕ → ℕ → List Segment → Type 0
Maximal retention total [] = Unit
Maximal retention total (s ∷ older) = retention < total + s.position

over-lem :
    (retention total position : ℕ)
    → retention < two_63
    → total + position < two_63
    → lt64 retention (add64 total position) ≡ true
    → retention < total + position
over-lem retention total position hr ht h =
    let e : add64 total position ≡ total + position = unfold add64 in omega arith in
    omega (arith, e, (lt64_iff retention (add64 total position) hr (omega (arith, e))).0 h)

fits-lem :
    (retention total position : ℕ)
    → retention < two_63
    → total + position < two_63
    → lt64 retention (add64 total position) ≡ false
    → total + position ≤ retention
fits-lem retention total position hr ht h =
    let e : add64 total position ≡ total + position = unfold add64 in omega arith in
    elim (dec_lt retention (total + position)) [
      | yes lt ↦ absurd (
          cc (
            h,
            (lt64_iff retention (add64 total position) hr (omega (arith, e))).1
                (omega (arith, e, lt)),
          ))
      | no n ↦ omega (arith, n)
    ]

-- What the first loop comes to: it keeps `mid` of the older segments, beside those that it had.
pub record Kept (retention total : ℕ) (older kept : List Segment) : Type 0 where
  pub mid : List Segment
  pub segments : (keep retention total older kept).0 ≡ mid ++ kept
  pub parts : reverse (keep retention total older kept).1 ++ mid ≡ reverse older
  -- While no sum of positions overflows.
  pub within :
      retention < two_63
      → total + total_bytes older < two_63
      → (mid ≡ []) ⊎ (total + total_bytes mid ≤ retention)
  pub maximal :
      retention < two_63
      → total + total_bytes older < two_63
      → Maximal retention (total + total_bytes mid) (keep retention total older kept).1

keep-stops :
    (retention total : ℕ) (s : Segment) (older kept : List Segment)
    → lt64 retention (add64 total s.position) ≡ true
    → keep retention total (s ∷ older) kept ≡ (kept, s ∷ older)
unfolding keep
keep-stops retention total s older kept h = rw h refl

keep-goes_on :
    (retention total : ℕ) (s : Segment) (older kept : List Segment)
    → lt64 retention (add64 total s.position) ≡ false
    → keep retention total (s ∷ older) kept
      ≡ keep retention (add64 total s.position) older (s ∷ kept)
unfolding keep
keep-goes_on retention total s older kept h = rw h refl

sum_of :
    (total : ℕ) (s : Segment) (older : List Segment)
    → total + total_bytes (s ∷ older) < two_63
    → add64 total s.position + total_bytes older < two_63
unfolding total_bytes add64
sum_of total s older h = omega arith

sum_with :
    (total : ℕ) (s : Segment) (older mid : List Segment)
    → total + total_bytes (s ∷ older) < two_63
    → add64 total s.position + total_bytes mid ≡ total + total_bytes (mid ++ s ∷ [])
unfolding total_bytes add64
sum_with total s older mid h = omega (arith, total_bytes-append mid (s ∷ []))

kept_within :
    (retention total : ℕ) (s : Segment) (older mid : List Segment)
    → retention < two_63
    → total + total_bytes (s ∷ older) < two_63
    → lt64 retention (add64 total s.position) ≡ false
    → (mid ≡ []) ⊎ (add64 total s.position + total_bytes mid ≤ retention)
    → total + total_bytes (mid ++ s ∷ []) ≤ retention
unfolding total_bytes
kept_within retention total s older mid hr ht h (inl empty) = omega (
  arith,
  total_bytes-append mid (s ∷ []),
  ap total_bytes empty,
  fits-lem retention total s.position hr (omega arith) h,
)
kept_within retention total s older mid hr ht h (inr le) =
    omega (arith, sum_with total s older mid ht, le)

pub keep-Kept : (retention total : ℕ) (older kept : List Segment) → Kept retention total older kept
unfolding keep
keep-Kept retention total [] kept = record {
  mid = [];
  segments = refl;
  parts = refl;
  within = λ hr ht. inl refl;
  maximal = λ hr ht. tt;
}
keep-Kept retention total (s ∷ older) kept =
    elim (Bool-cases (lt64 retention (add64 total s.position))) [
      | inl over ↦ record {
        mid = [];
        segments = ap (λ p. p.0) (keep-stops retention total s older kept over);
        parts =
            ap (λ p. reverse p.1 ++ []) (keep-stops retention total s older kept over)
            ∙ append-nil _;
        within = λ hr ht. inl refl;
        maximal = λ hr ht.
            subst (λ p. Maximal retention (total + total_bytes []) p.1)
              (sym (keep-stops retention total s older kept over))
              (unfold total_bytes in
                omega (
                  arith,
                  over-lem retention total s.position hr (unfold total_bytes in omega arith) over,
                ));
      }
      | inr fits ↦
          let next = keep-Kept retention (add64 total s.position) older (s ∷ kept) in
          let e = keep-goes_on retention total s older kept fits in
          record {
            mid = next.mid ++ s ∷ [];
            segments = ap (λ p. p.0) e ∙ next.segments ∙ sym (append_assoc next.mid (s ∷ []) kept);
            parts =
                ap (λ p. reverse p.1 ++ (next.mid ++ s ∷ [])) e
                ∙ sym (append_assoc _ next.mid (s ∷ []))
                ∙ ap (λ l. l ++ s ∷ []) next.parts
                ∙ sym (reverse-cons s older);
            within = λ hr ht. inr (
                kept_within retention total s older next.mid hr ht fits
                  (next.within hr (sum_of total s older ht)));
            maximal = λ hr ht.
                subst (λ n. Maximal retention n (keep retention total (s ∷ older) kept).1)
                  (sum_with total s older next.mid ht)
                  (subst
                    (λ p. Maximal retention (add64 total s.position + total_bytes next.mid) p.1)
                    (sym e) (next.maximal hr (sum_of total s older ht)));
          }
    ]
