-- ===== src/Fsm/Memdb.antt =====
-- What the store uses of hashicorp/go-memdb: one table with a unique index `id`, seen inside a
-- transaction. The schema of a table gives its key, which is a parameter of the interface.
use jocko.Common.{Option, none, some, List, ◌≡◌, if◌then◌else◌}
use jocko.Common.Eq.{Eq}
use mathlib.Core.Option

pub record MemTable (K V : Type 0) (key : V → K) ⦃e : Eq K⦄ : Type 1 where
  pub Rows : Type 0
  pub empty : Rows
  -- tx.First(table, "id", k)
  pub first : K → Rows → Option V
  -- tx.Insert(table, v) and tx.Delete(table, v); `none` is an error.
  pub insert : V → Rows → Option Rows
  pub delete : V → Rows → Option Rows
  -- the iterator of tx.Get(table, "id"), to its end
  pub all : Rows → List V
  -- An assignment through the pointer that First returned, which changes the row of the database.
  pub mutate : V → Rows → Rows
  pub first-empty : (k : K) → first k empty ≡ none
  -- Insert replaces the row of the same key and leaves the others.
  pub first-insert :
      (v : V) (rows rows' : Rows) (k : K)
      → insert v rows ≡ some rows'
      → first k rows' ≡ (if e.beq (key v) k then some v else first k rows)
  -- Delete removes the row of the object's key and leaves the others.
  pub first-delete :
      (v : V) (rows rows' : Rows) (k : K)
      → delete v rows ≡ some rows'
      → first k rows' ≡ (if e.beq (key v) k then none else first k rows)
  -- No other row changes, and a row that is not there is not added.
  pub first-mutate :
      (v : V) (rows : Rows) (k : K)
      → first k (mutate v rows)
        ≡ (if e.beq (key v) k then Option.map (λ _. v) (first k rows) else first k rows)
  -- A row that is found has the key that was asked for.
  pub key-first : (k : K) (rows : Rows) (v : V) → first k rows ≡ some v → key v ≡ k
