-- ===== src/Runs/Tables.antt =====
-- A database whose tables are lists of rows, for the runs of the store.
use jocko.Common.{
  ℕ, ◌+◌, true, false, Option, none, some, List, [], ◌∷◌, map, ◌≡◌, refl, sym, subst, ◌∙◌, ap, ◌&&◌,
  leb, if◌then◌else◌, arith, Bool-cases, inl, inr,
}
use mathlib.Core.Option
use mathlib.Core.Option.{some-injective}
use jocko.Common.Eq.{Eq, str_Eq, int_Eq, pair_Eq}
use jocko.Fsm.Memdb.{MemTable}
use jocko.Fsm.Store.{Database, table_Eq}

module _ {K V : Type 0} (key : V → K) ⦃e : Eq K⦄ where
  unfoldable pub first : K → List V → Option V
  first k [] = none
  first k (v ∷ rows) = if e.beq (key v) k then some v else first k rows

  unfoldable pub without : K → List V → List V
  without k [] = []
  without k (v ∷ rows) = if e.beq (key v) k then without k rows else v ∷ without k rows

  unfoldable pub changed : V → List V → List V
  changed v [] = []
  changed v (u ∷ rows) = (if e.beq (key u) (key v) then v else u) ∷ changed v rows

  pub first-changed :
      (v : V) (rows : List V) (k : K)
      → first k (changed v rows)
        ≡ (if e.beq (key v) k then Option.map (λ _. v) (first k rows) else first k rows)
  unfolding first changed
  first-changed v [] k = ground arith
  first-changed v (u ∷ rows) k = elim (Bool-cases (e.beq (key u) (key v))) [
    | inl same ↦
        let eq : e.beq (key u) k ≡ e.beq (key v) k =
          ap (λ i. e.beq i k) ((e.beq_iff (key u) (key v)).0 same) in
        ground (arith, first-changed v rows k, eq)
    | inr other ↦
        let eq : e.beq (key v) k ≡ true → e.beq (key u) k ≡ false =
          (λ h. subst (λ i. e.beq (key u) i ≡ false) ((e.beq_iff (key v) k).0 h) other) in
        ground (arith, first-changed v rows k, eq)
  ]

  pub first-without :
      (j k : K) (rows : List V)
      → first k (without j rows) ≡ (if e.beq j k then none else first k rows)
  unfolding first without
  first-without j k [] = ground arith
  first-without j k (v ∷ rows) = elim (Bool-cases (e.beq (key v) j)) [
    | inl same ↦
        let eq : e.beq (key v) k ≡ e.beq j k = ap (λ i. e.beq i k) ((e.beq_iff (key v) j).0 same) in
        ground (arith, first-without j k rows, eq)
    | inr other ↦
        let eq : e.beq j k ≡ true → e.beq (key v) k ≡ false =
          (λ h. subst (λ i. e.beq (key v) i ≡ false) ((e.beq_iff j k).0 h) other) in
        ground (arith, first-without j k rows, eq)
  ]

  pub first-key : (k : K) (rows : List V) (v : V) → first k rows ≡ some v → key v ≡ k
  unfolding first
  first-key k [] v h = cc
  first-key k (u ∷ rows) v h = elim (Bool-cases (e.beq (key u) k)) [
    | inl same ↦
        let eq : some u ≡ some v = ground (arith, h) in
        ap key (sym (some-injective _ _ eq)) ∙ (e.beq_iff (key u) k).0 same
    | inr other ↦ first-key k rows v (ground (arith, h))
  ]

  pub inserted :
      (v : V) (rows rows' : List V) (k : K)
      → some (v ∷ without (key v) rows) ≡ some rows'
      → first k rows' ≡ (if e.beq (key v) k then some v else first k rows)
  unfolding first
  inserted v rows rows' k h =
      subst (λ r. first k r ≡ (if e.beq (key v) k then some v else first k rows))
        (some-injective _ _ h) (ground (arith, first-without (key v) k rows))

  -- Insert puts the row in front of the rows of the other keys.
  unfoldable pub list_table : MemTable K V key
  unfolding first without changed
  list_table = record {
    Rows = List V;
    empty = [];
    first = first;
    insert = λ v rows. some (v ∷ without (key v) rows);
    delete = λ v rows. some (without (key v) rows);
    all = λ rows. rows;
    mutate = changed;
    first-empty = λ k. refl;
    first-insert = λ v rows rows' k h. inserted v rows rows' k h;
    first-delete = λ v rows rows' k h.
        ap (first k) (sym (some-injective _ _ h)) ∙ first-without (key v) k rows;
    first-mutate = first-changed;
    key-first = first-key;
  }

-- strings.ToLower on ASCII letters.
abbrev lower_code : ℕ → ℕ
lower_code c = if leb 65 c && leb c 90 then c + 32 else c

abbrev pub list_db : Database
list_db = record {
  to_lower = map lower_code;
  index = list_table _;
  node = list_table _;
  topic = list_table _;
  partition = list_table _;
  group = list_table _;
}
