-- ===== src/Fsm/Store/Rows.antt =====
-- The log indexes of the rows of one table, whichever table it is.
use jocko.Common.{
  ℕ, ◌≤◌, ◌≡◌, refl, sym, ◌∙◌, Bool, true, false, Option, none, some, arith, if◌then◌else◌,
}
use jocko.Common.Eq.{Eq}
use jocko.Fsm.Memdb.{MemTable}
use jocko.Fsm.Structs.{RaftIndex}
use jocko.Fsm.Store.{next_index}
use jocko.Common.{subst}
use mathlib.Core.Option
use mathlib.Core.Option.{some-injective}

-- A row was created no later than it was changed, and changed no later than `bound`.
abbrev pub IsStamped : RaftIndex → ℕ → Type 0
IsStamped i bound = (i.create_index ≤ i.modify_index) × (i.modify_index ≤ bound)

module _ {K V : Type 0} {key : V → K} ⦃e : Eq K⦄ (t : MemTable K V key) (raft : V → RaftIndex) where
  pub record AreStamped (rows : t.Rows) (bound : ℕ) : Type 0 where
    pub at : (k : K) (v : V) → t.first k rows ≡ some v → IsStamped (raft v) bound

  pub AreStamped-later : (rows : t.Rows) (n m : ℕ) → n ≤ m → AreStamped rows n → AreStamped rows m
  AreStamped-later rows n m le h = record {
    at = λ k v p. let (a, b) = h.at k v p in (a, omega arith);
  }

  pub AreStamped-empty : (n : ℕ) → AreStamped t.empty n
  AreStamped-empty n = record { at = λ k v p. cc (t.first-empty k) }

  next_index-IsStamped :
      (old : Option RaftIndex) (n idx : ℕ)
      → n ≤ idx
      → ((i : RaftIndex) → old ≡ some i → IsStamped i n)
      → IsStamped (next_index old idx) idx
  next_index-IsStamped none n idx le h = omega arith
  next_index-IsStamped (some i) n idx le h = let (a, b) = h i refl in omega arith

  IsStamped-row :
      (v : V) (rows : t.Rows) (n idx : ℕ)
      → n ≤ idx
      → raft v ≡ next_index (Option.map raft (t.first (key v) rows)) idx
      → AreStamped rows n
      → IsStamped (raft v) idx
  IsStamped-row v rows n idx le stamp h =
      subst (λ i. IsStamped i idx) (sym stamp)
        (next_index-IsStamped _ n idx le (row (t.first (key v) rows) refl))
    where
      row :
          (o : Option V)
          → t.first (key v) rows ≡ o
          → (i : RaftIndex) → Option.map raft o ≡ some i
          → IsStamped i n
      row none p i q = cc
      row (some w) p i q = subst (λ j. IsStamped j n) (some-injective _ _ q) (h.at (key v) w p)

  -- The row that an ensure writes, beside the rows that were there.
  pub AreStamped-insert :
      (v : V) (rows rows' : t.Rows) (n idx : ℕ)
      → n ≤ idx
      → raft v ≡ next_index (Option.map raft (t.first (key v) rows)) idx
      → t.insert v rows ≡ some rows'
      → AreStamped rows n
      → AreStamped rows' idx
  AreStamped-insert v rows rows' n idx le stamp ins h = record {
    at = λ k u p.
        go u (e.beq (key v) k) (t.first k rows) (sym (t.first-insert v rows rows' k ins) ∙ p)
          ((AreStamped-later rows n idx le h).at k);
  }
    where
      go :
          (u : V) (b : Bool) (o : Option V)
          → (if b then some v else o) ≡ some u
          → ((w : V) → o ≡ some w → IsStamped (raft w) idx)
          → IsStamped (raft u) idx
      go u true o q old =
          subst (λ w. IsStamped (raft w) idx) (some-injective _ _ q)
            (IsStamped-row v rows n idx le stamp h)
      go u false o q old = old u q

  pub AreStamped-delete :
      (v : V) (rows rows' : t.Rows) (n : ℕ)
      → t.delete v rows ≡ some rows'
      → AreStamped rows n
      → AreStamped rows' n
  AreStamped-delete v rows rows' n del h = record {
    at = λ k u p.
        go u (e.beq (key v) k) (t.first k rows) (sym (t.first-delete v rows rows' k del) ∙ p)
          (h.at k);
  }
    where
      go :
          (u : V) (b : Bool) (o : Option V)
          → (if b then none else o) ≡ some u
          → ((w : V) → o ≡ some w → IsStamped (raft w) n)
          → IsStamped (raft u) n
      go u true o q old = cc
      go u false o q old = old u q
