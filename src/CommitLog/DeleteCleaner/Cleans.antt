-- ===== src/CommitLog/DeleteCleaner/Cleans.antt =====
-- Clean keeps the longest run of newest segments that the retention allows.
use jocko.Common.{
  ℕ, ◌+◌, ◌≤◌, ◌<◌, ◌≡◌, refl, sym, ap, subst, ◌∙◌, ◌⊎◌, inl, inr, true, false, none, some, List,
  [], ◌∷◌, ◌++◌, arith, Bool-cases, ◌==◌, if◌then◌else◌,
}
use mathlib.Core.List.{reverse, reverse-append, reverse-reverse}
use mathlib.Core.Option.{some-injective}
use jocko.CommitLog.Int64.{two_63, minus_one}
use jocko.CommitLog.Segment.{Segment, Disk}
use jocko.CommitLog.DeleteCleaner.{keep, delete_all, delete_old, Cleaned, clean_newest_first, clean}
use jocko.CommitLog.DeleteCleaner.Retains.{total_bytes, total_bytes-append, keep-Kept, Maximal}

total_bytes-reverse : (xs : List Segment) → total_bytes (reverse xs) ≡ total_bytes xs
unfolding total_bytes
total_bytes-reverse [] = refl
total_bytes-reverse (x ∷ xs) = omega (
  arith,
  ap total_bytes (reverse-append (x ∷ []) xs),
  total_bytes-append (reverse xs) (x ∷ []),
  total_bytes-reverse xs,
)

delete_all-removes :
    (disk : Disk) (old : List Segment)
    → ((s : Segment) → disk.removes s ≡ true)
    → delete_all disk old ≡ (old, true)
unfolding delete_all
delete_all-removes disk [] h = refl
delete_all-removes disk (s ∷ older) h = rw (h s) (rw (delete_all-removes disk older h) refl)

delete_old-removes :
    (disk : Disk) (p : List Segment × List Segment)
    → ((s : Segment) → disk.removes s ≡ true)
    → delete_old disk p ≡ record { segments = some p.0; deleted = p.1 }
unfolding delete_old
delete_old-removes disk p h =
    ap (λ r. record { segments = if r.1 then some p.0 else none; deleted = r.0 })
      (delete_all-removes disk p.1 h)

-- The newest segment comes first when the segments are turned around.
clean-newest :
    (disk : Disk) (retention : ℕ) (older : List Segment) (newest : Segment)
    → (retention == minus_one) ≡ false
    → clean disk retention (older ++ newest ∷ [])
      ≡ delete_old disk (keep retention newest.position (reverse older) (newest ∷ []))
unfolding clean clean_newest_first
clean-newest disk retention older newest h =
    rw h (ap (clean_newest_first disk retention) (reverse-append older (newest ∷ [])))

-- What Clean comes to, for the segments `older` and the one after them.
pub record IsRetained (retention : ℕ) (older : List Segment) (newest : Segment) (c : Cleaned)
    : Type 0 where
  pub kept : List Segment
  pub returned : c.segments ≡ some (kept ++ newest ∷ [])
  pub parts : reverse c.deleted ++ kept ≡ older
  pub within : (kept ≡ []) ⊎ (total_bytes (kept ++ newest ∷ []) ≤ retention)
  pub maximal : Maximal retention (total_bytes (kept ++ newest ∷ [])) c.deleted

-- When no deletion fails and the positions of the segments add up to an int64, Clean with a
-- retention of at least 0 returns a run of segments that ends in the newest and deletes the others;
-- the run is within the retention or is the newest segment alone, and one more segment would have
-- gone over the retention.
pub clean-IsRetained :
    (disk : Disk) (retention : ℕ) (older : List Segment) (newest : Segment)
    → ((s : Segment) → disk.removes s ≡ true)
    → retention < two_63
    → total_bytes (older ++ newest ∷ []) < two_63
    → IsRetained retention older newest (clean disk retention (older ++ newest ∷ []))
unfolding delete_old total_bytes
clean-IsRetained disk retention older newest removes hr ht =
    let k = keep-Kept retention newest.position (reverse older) (newest ∷ []) in
    let loop = keep retention newest.position (reverse older) (newest ∷ []) in
    let sum : newest.position + total_bytes (reverse older) < two_63 =
      omega (arith, total_bytes-append older (newest ∷ []), total_bytes-reverse older) in
    let total : newest.position + total_bytes k.mid ≡ total_bytes (k.mid ++ newest ∷ []) =
      omega (arith, total_bytes-append k.mid (newest ∷ [])) in
    let result : delete_old disk loop ≡ record { segments = some loop.0; deleted = loop.1 } =
      delete_old-removes disk loop removes in
    subst (IsRetained retention older newest)
      (sym (clean-newest disk retention older newest (ground (arith, hr)) ∙ result))
      (record {
        kept = k.mid;
        returned = ap some k.segments;
        parts = k.parts ∙ reverse-reverse older;
        within = elim (k.within hr sum) [ inl e ↦ inl e | inr le ↦ inr (omega (arith, total, le)) ];
        maximal = subst (λ n. Maximal retention n loop.1) total (k.maximal hr sum);
      })

-- The segments that Clean returns, whatever the disk does, are the newest and some before it.
pub record Suffix (older : List Segment) (newest : Segment) (segments : List Segment) : Type 0 where
  pub gone : List Segment
  pub kept : List Segment
  pub parts : gone ++ kept ≡ older
  pub returned : segments ≡ kept ++ newest ∷ []

delete_old-kept :
    (disk : Disk) (p : List Segment × List Segment) (segments : List Segment)
    → (delete_old disk p).segments ≡ some segments
    → p.0 ≡ segments
unfolding delete_old
delete_old-kept disk (kept, old) segments h = elim (Bool-cases (delete_all disk old).1) [
  | inl fine ↦ some-injective _ _ (ground (arith, h, fine))
  | inr wrong ↦ absurd (ground (arith, h, wrong))
]

pub clean-Suffix :
    (disk : Disk) (retention : ℕ) (older : List Segment) (newest : Segment)
    (segments : List Segment)
    → (clean disk retention (older ++ newest ∷ [])).segments ≡ some segments
    → Suffix older newest segments
unfolding clean
clean-Suffix disk retention older newest segments h = elim (Bool-cases (retention == minus_one)) [
  | inl forever ↦ record {
    gone = [];
    kept = older;
    parts = refl;
    returned = some-injective _ _ (sym h ∙ rw forever refl);
  }
  | inr some_time ↦
      let k = keep-Kept retention newest.position (reverse older) (newest ∷ []) in
      let loop = keep retention newest.position (reverse older) (newest ∷ []) in
      record {
        gone = reverse loop.1;
        kept = k.mid;
        parts = k.parts ∙ reverse-reverse older;
        returned =
            sym (
              delete_old-kept disk loop segments (
                ap (λ c. c.segments) (sym (clean-newest disk retention older newest some_time))
                ∙ h))
            ∙ k.segments;
      }
]
