-- ===== src/Broker/Placement/Places.antt =====
-- What buildPartitions of jocko/broker.go promises.
use jocko.Common.{
  ℕ, zero, suc, ◌≤◌, ◌+◌, ◌-◌, ◌^◌, List, [], ◌∷◌, length, take, map, All, Str, false, ◌≡◌, refl,
  sym, ap, subst, ◌∙◌, arith, length-take, if◌then◌else◌,
}
use jocko.Common.Int.{ℤ, pos, negsuc, InWord, signed-unsigned}
use jocko.Fsm.Structs.{Partition}
use jocko.Broker.Errors.{err_none, err_invalid_replication_factor}
use jocko.Broker.Handled.{replied, ◌>>=◌}
use jocko.Broker.Placement.{
  move, walk, exceeds, before, one_less, rounds, new_partition, place_one, place, build_partitions,
}
use jocko.Broker.Placement.Rings.{
  Distinct, Keeps, All-take, Distinct-take, move-Keeps, walk-Keeps, walk_lem,
}

-- A partition of the topic with so many followers among the ids with P: its leader is the first of
-- its replicas, which are all different and all in sync.
pub record IsPlaced (P : ℤ → Type 0) (name : Str) (steps : ℕ) (p : Partition) : Type 0 where
  pub topic : p.topic ≡ name
  pub number : p.partition ≡ p.id
  pub leader : take 1 p.ar ≡ p.leader ∷ []
  pub in_sync : p.isr ≡ p.ar
  pub replicas : length p.ar ≡ steps + 1
  pub distinct : Distinct p.ar
  pub known : All P p.ar

-- The ids from i on.
abbrev pub ids : ℕ → ℕ → List ℤ
ids i zero = []
ids i (suc n) = pos i ∷ ids (i + 1) n

module _ (P : ℤ → Type 0) (topic : Str) (steps : ℕ) (moves : ℕ → ℕ) where
  -- A ring that is large enough for the replicas of one partition.
  record Suits (ring : List ℤ) : Type 0 where
    size : steps + 1 ≤ length ring
    distinct : Distinct ring
    known : All P ring

  Suits-Keeps : (ring turned : List ℤ) → Suits ring → Keeps ring turned → Suits turned
  Suits-Keeps ring turned h k = record {
    size = subst (λ n. steps + 1 ≤ n) (sym k.length) h.size;
    distinct = k.distinct h.distinct;
    known = k.all P h.known;
  }

  place_one-IsPlaced :
      (i : ℕ) (ring : List ℤ)
      → Suits ring
      → (p : Partition) × (last : List ℤ) × (place_one topic steps i ring ≡ replied (p, last))
        × IsPlaced P topic steps p
        × (p.id ≡ pos i)
        × Suits last
  unfolding place_one
  place_one-IsPlaced i [] h = ground (arith, h.size)
  place_one-IsPlaced i (b ∷ bs) h =
      let visited : (walk steps (b ∷ bs)).0 ≡ take steps bs =
        walk_lem steps b bs (let n = h.size in omega arith) in
      (
        new_partition topic i b (b ∷ (walk steps (b ∷ bs)).0),
        (walk steps (b ∷ bs)).1,
        refl,
        subst (λ vs. IsPlaced P topic steps (new_partition topic i b (b ∷ vs))) (sym visited)
            (record {
              topic = refl;
              number = refl;
              leader = refl;
              in_sync = refl;
              replicas = (let n = h.size in omega (arith, length-take steps bs));
              distinct = Distinct-take (suc steps) (b ∷ bs) h.distinct;
              known = All-take P (suc steps) (b ∷ bs) h.known;
            }),
        refl,
        Suits-Keeps (b ∷ bs) (walk steps (b ∷ bs)).1 h (walk-Keeps steps (b ∷ bs)),
      )

  place-IsPlaced :
      (n i : ℕ) (ring : List ℤ)
      → Suits ring
      → (ps : List Partition) × (place topic steps moves n i ring ≡ replied ps)
        × (map (λ p. p.id) ps ≡ ids i n)
        × All (IsPlaced P topic steps) ps
  unfolding place
  place-IsPlaced zero i ring h = ([], refl, refl, tt)
  place-IsPlaced (suc n) i ring h =
      let turned = move (moves i) ring in
      let (p, last, one, placed, id, suits) =
        place_one-IsPlaced i turned (Suits-Keeps ring turned h (move-Keeps (moves i) ring)) in
      let (ps, others, numbers, all) = place-IsPlaced n (i + 1) last suits in
      (
        p ∷ ps,
        ap
              (λ o. o >>= λ (p, last).
                place topic steps moves n (i + 1) last >>= λ ps. replied (p ∷ ps))
              one
            ∙ ap (λ o. o >>= λ ps. replied (p ∷ ps)) others,
        ap (λ x. x ∷ map (λ p. p.id) ps) id ∙ ap (λ l. pos i ∷ l) numbers,
        (placed, all),
      )

-- The replicas beside the leader, for a factor.
abbrev pub followers : ℤ → ℕ
followers (pos n) = n - 1
followers (negsuc n) = 0

-- Where one less than the factor is an int16 the subtraction does not wrap.
rounds-one_less :
    (factor : ℤ) → InWord (2 ^ 15) (before factor) → rounds (one_less factor) ≡ followers factor
unfolding one_less
rounds-one_less factor h = ap rounds (signed-unsigned (2 ^ 15) (before factor) h) ∙ exact factor
  where
    exact : (z : ℤ) → rounds (before z) ≡ followers z
    exact (pos zero) = refl
    exact (pos (suc n)) = omega arith
    exact (negsuc n) = refl

followers_fit :
    (factor : ℤ) (count : ℕ)
    → 1 ≤ count
    → exceeds factor count ≡ false
    → followers factor + 1 ≤ count
followers_fit (pos n) count h e = ground arith
followers_fit (negsuc n) count h e = h

-- When some broker is known, no id stands twice, the factor is at most the number of brokers, and
-- the factor and one less are in the range of int16 and the count in that of int32,
-- buildPartitions returns no error, with the partitions from 0 on in order. Each has as many
-- different replicas as the factor says, one at least, and what holds of the ids of all brokers
-- holds of them; the first of them is the leader, and all are in sync, whatever rand.Intn returns.
pub build_partitions-IsPlaced :
    (P : ℤ → Type 0) (brokers : List ℤ) (moves : ℕ → ℕ) (topic : Str) (count factor : ℤ)
    → 1 ≤ length brokers
    → Distinct brokers
    → All P brokers
    → exceeds factor (length brokers) ≡ false
    → InWord (2 ^ 31) count
    → InWord (2 ^ 15) factor
    → InWord (2 ^ 15) (before factor)
    → (ps : List Partition) × (build_partitions brokers moves topic count factor
        ≡ replied (ps, err_none))
      × (map (λ p. p.id) ps ≡ ids 0 (rounds count))
      × All (IsPlaced P topic (followers factor)) ps
unfolding build_partitions
build_partitions-IsPlaced P brokers moves topic count factor some_broker distinct known fits in32
      in16 less =
    let (ps, placed, numbers, all) =
      place-IsPlaced P topic (followers factor) moves (rounds count) 0 brokers (record {
        size = followers_fit factor (length brokers) some_broker fits;
        distinct = distinct;
        known = known;
      }) in
    (
      ps,
      ap
            (λ b.
              if b
              then replied ([], err_invalid_replication_factor)
              else (place topic (rounds (one_less factor)) moves (rounds count) 0 brokers >>= λ ps.
                  replied (ps, err_none)))
            fits
          ∙ ap
              (λ steps.
                place topic steps moves (rounds count) 0 brokers >>= λ ps. replied (ps, err_none))
              (rounds-one_less factor less)
          ∙ ap (λ o. o >>= λ ps. replied (ps, err_none)) placed,
      numbers,
      all,
    )
