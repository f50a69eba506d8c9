-- ===== src/Common/Assoc.antt =====
-- A Go map as a list of keys and values, in which the first pair of a key counts.
use jocko.Common.Eq.{Eq}
use mathlib.Core.Path.{◌≡◌, refl, ap, subst}
use mathlib.Core.Logic.{inl, inr}
use mathlib.Core.Bool.{Bool, true, false}
use mathlib.Core.Option.{Option, none, some}
use mathlib.Core.List.{List, [], ◌∷◌}
use jocko.Common.Tests.{if◌then◌else◌, Bool-cases}
use jocko.Common.Lists.{All}
use native.Mathlib.Omega.{arith}

transfer : {K : Type 0} ⦃e : Eq K⦄ (j k l : K) → e.beq j k ≡ true → e.beq j l ≡ e.beq k l
transfer ⦃e⦄ j k l same = ap (λ i. e.beq i l) ((e.beq_iff j k).0 same)

apart :
    {K : Type 0} ⦃e : Eq K⦄ (j k l : K) → e.beq j k ≡ false → e.beq k l ≡ true → e.beq j l ≡ false
apart ⦃e⦄ j k l other h = subst (λ i. e.beq j i ≡ false) ((e.beq_iff k l).0 h) other

module _ {K V : Type 0} ⦃e : Eq K⦄ where
  -- m[k]
  unfoldable pub find : K → List (K × V) → Option V
  find k [] = none
  find k ((j, v) ∷ m) = if e.beq j k then some v else find k m

  -- m[k] = v
  unfoldable pub assign : K → V → List (K × V) → List (K × V)
  assign k v [] = (k, v) ∷ []
  assign k v ((j, u) ∷ m) = if e.beq j k then (k, v) ∷ m else (j, u) ∷ assign k v m

  -- delete(m, k)
  unfoldable pub erase : K → List (K × V) → List (K × V)
  erase k [] = []
  erase k ((j, v) ∷ m) = let rest = erase k m in if e.beq j k then rest else (j, v) ∷ rest

  pub find-assign :
      (k : K) (v : V) (m : List (K × V)) (l : K)
      → find l (assign k v m) ≡ (if e.beq k l then some v else find l m)
  unfolding find assign
  find-assign k v [] l = refl
  find-assign k v ((j, u) ∷ m) l = elim (Bool-cases (e.beq j k)) [
    | inl same ↦ ground (arith, transfer j k l same)
    | inr other ↦ ground (arith, find-assign k v m l, apart j k l other)
  ]

  pub find-erase :
      (k : K) (m : List (K × V)) (l : K)
      → find l (erase k m) ≡ (if e.beq k l then none else find l m)
  unfolding find erase
  find-erase k [] l = ground arith
  find-erase k ((j, u) ∷ m) l = elim (Bool-cases (e.beq j k)) [
    | inl same ↦ ground (arith, find-erase k m l, transfer j k l same)
    | inr other ↦ ground (arith, find-erase k m l, apart j k l other)
  ]

  -- A property of every pair outlives an assignment and a deletion.
  pub All-assign :
      (P : K × V → Type 0) (k : K) (v : V) (m : List (K × V))
      → P (k, v)
      → All P m
      → All P (assign k v m)
  unfolding assign
  All-assign P k v [] p h = (p, tt)
  All-assign P k v ((j, u) ∷ m) p (q, h) = go (e.beq j k) (All-assign P k v m p h)
    where
      go :
          (b : Bool)
          → All P (assign k v m)
          → All P (if b then (k, v) ∷ m else (j, u) ∷ assign k v m)
      go true rest = (p, h)
      go false rest = (q, rest)

  pub All-erase : (P : K × V → Type 0) (k : K) (m : List (K × V)) → All P m → All P (erase k m)
  unfolding erase
  All-erase P k [] h = tt
  All-erase P k ((j, u) ∷ m) (q, h) = go (e.beq j k) (All-erase P k m h)
    where
      go : (b : Bool) → All P (erase k m) → All P (if b then erase k m else (j, u) ∷ erase k m)
      go true rest = rest
      go false rest = (q, rest)
