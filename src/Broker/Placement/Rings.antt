-- ===== src/Broker/Placement/Rings.antt =====
-- The rings of jocko/broker.go's buildPartitions: what turning them keeps.
use jocko.Common.{
  ℕ, zero, suc, ◌≤◌, List, [], ◌∷◌, ◌++◌, length, take, All, ◌≡◌, ◌≢◌, refl, sym, ap, ◌∙◌, arith,
  length-append,
}
use jocko.Common.Int.{ℤ}
use jocko.Broker.Placement.{rotate, move, walk}

-- No id stands twice.
abbrev pub Distinct : List ℤ → Type 0
Distinct [] = Unit
Distinct (b ∷ bs) = All (λ a. b ≢ a) bs × Distinct bs

append_assoc : (xs ys zs : List ℤ) → (xs ++ ys) ++ zs ≡ xs ++ (ys ++ zs)
append_assoc [] ys zs = refl
append_assoc (x ∷ xs) ys zs = ap (λ l. x ∷ l) (append_assoc xs ys zs)

All-snoc : (P : ℤ → Type 0) (xs : List ℤ) (x : ℤ) → All P xs → P x → All P (xs ++ (x ∷ []))
All-snoc P [] x h p = (p, tt)
All-snoc P (y ∷ ys) x (q, h) p = (q, All-snoc P ys x h p)

pub All-take : (P : ℤ → Type 0) (n : ℕ) (xs : List ℤ) → All P xs → All P (take n xs)
All-take P zero xs h = tt
All-take P (suc n) [] h = tt
All-take P (suc n) (x ∷ xs) (p, h) = (p, All-take P n xs h)

Distinct-snoc :
    (xs : List ℤ) (x : ℤ) → All (λ a. x ≢ a) xs → Distinct xs → Distinct (xs ++ (x ∷ []))
Distinct-snoc [] x new h = (tt, tt)
Distinct-snoc (y ∷ ys) x (other, new) (h, hs) =
    (All-snoc (λ a. y ≢ a) ys x h (λ e. other (sym e)), Distinct-snoc ys x new hs)

pub Distinct-take : (n : ℕ) (xs : List ℤ) → Distinct xs → Distinct (take n xs)
Distinct-take zero xs h = tt
Distinct-take (suc n) [] h = tt
Distinct-take (suc n) (x ∷ xs) (new, h) = (All-take (λ a. x ≢ a) n xs new, Distinct-take n xs h)

-- The ring after so many calls of Next holds the same ids, each once if it did before.
pub record Keeps (ring turned : List ℤ) : Type 1 where
  pub length : length turned ≡ length ring
  pub all : (P : ℤ → Type 0) → All P ring → All P turned
  pub distinct : Distinct ring → Distinct turned

Keeps-refl : (ring : List ℤ) → Keeps ring ring
Keeps-refl ring = record { length = refl; all = λ P h. h; distinct = λ h. h }

Keeps-trans : (a b c : List ℤ) → Keeps a b → Keeps b c → Keeps a c
Keeps-trans a b c h k = record {
  length = k.length ∙ h.length;
  all = λ P p. k.all P (h.all P p);
  distinct = λ d. k.distinct (h.distinct d);
}

rotate-Keeps : (ring : List ℤ) → Keeps ring (rotate ring)
rotate-Keeps [] = Keeps-refl []
rotate-Keeps (b ∷ bs) = record {
  length = omega (arith, length-append bs (b ∷ []));
  all = λ P (p, h). All-snoc P bs b h p;
  distinct = λ (new, h). Distinct-snoc bs b new h;
}

pub move-Keeps : (n : ℕ) (ring : List ℤ) → Keeps ring (move n ring)
unfolding move
move-Keeps zero ring = Keeps-refl ring
move-Keeps (suc n) ring =
    Keeps-trans ring (rotate ring) (move n (rotate ring)) (rotate-Keeps ring)
      (move-Keeps n (rotate ring))

pub walk-Keeps : (n : ℕ) (ring : List ℤ) → Keeps ring (walk n ring).1
unfolding walk
walk-Keeps zero ring = Keeps-refl ring
walk-Keeps (suc n) ring =
    Keeps-trans ring (rotate ring) (walk n (rotate ring)).1 (rotate-Keeps ring)
      (walk-Keeps n (rotate ring))

-- A walk that is shorter than the ring visits the values that follow, each once.
walk-append :
    (n : ℕ) (b : ℤ) (bs cs : List ℤ) → n ≤ length bs → (walk n (b ∷ (bs ++ cs))).0 ≡ take n bs
unfolding walk
walk-append zero b bs cs h = refl
walk-append (suc n) b [] cs h = ground arith
walk-append (suc n) b (a ∷ bs) cs h =
    ap (λ l. a ∷ l)
      (ap (λ ring. (walk n (a ∷ ring)).0) (append_assoc bs cs (b ∷ []))
        ∙ walk-append n a bs (cs ++ (b ∷ [])) (omega arith))

append_nil : (xs : List ℤ) → xs ++ [] ≡ xs
append_nil [] = refl
append_nil (x ∷ xs) = ap (λ l. x ∷ l) (append_nil xs)

pub walk_lem : (n : ℕ) (b : ℤ) (bs : List ℤ) → n ≤ length bs → (walk n (b ∷ bs)).0 ≡ take n bs
walk_lem n b bs h = ap (λ l. (walk n (b ∷ l)).0) (sym (append_nil bs)) ∙ walk-append n b bs [] h
