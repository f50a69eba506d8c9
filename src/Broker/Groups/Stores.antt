-- ===== src/Broker/Groups/Stores.antt =====
-- The groups of the store after the assignments of a handler and after the entry of a group.
use jocko.Common.{
  ℕ, Bool, true, false, Option, none, some, Str, str_eq, eq_of_str_eq, ◌≡◌, refl, sym, ap, subst,
  ◌∙◌, arith, if◌then◌else◌,
}
use jocko.Common.Int.{ℤ}
use jocko.Common.Eq.{str_Eq}
use jocko.Fsm.Structs.{Group}
use jocko.Fsm.Store.{Database, Store, next_index, ensure_group}
use jocko.Fsm.Apply.{register_group, apply_message}
use jocko.Fsm.Spec.{view, step}
use jocko.Fsm.Spec.Refines.{apply_message-view}
use jocko.Broker.Raft.{RaftResult, applied, dropped, lost, Cluster, after_entry}
use jocko.Broker.Groups.{group_of, touch, touch_store, or_new}
use mathlib.Core.Option

-- The index of the entry, if there is one.
abbrev pub index_of : RaftResult → ℕ
index_of (applied idx) = idx
index_of dropped = 0
index_of (lost idx) = idx

module _ (db : Database) where
  -- The row of a key in the table of groups.
  abbrev pub group_at : Str → Store db → Option Group
  group_at k s = db.group.first k s.group

  -- The entry of the group was applied, and its transaction succeeded.
  unfoldable pub was_written : RaftResult → Group → Store db → Bool
  unfolding ensure_group
  was_written (applied idx) g s = (ensure_group db idx g s).1
  was_written dropped g s = false
  was_written (lost idx) g s = (ensure_group db idx g s).1

  -- The group with the indexes that its transaction gives it.
  abbrev pub stamped : ℕ → Group → Store db → Group
  stamped idx g s = record g {
    raft_index = next_index (Option.map (λ u. u.raft_index) (group_at (db.to_lower g.group) s)) idx;
  }

  abbrev pub with_group : Bool → ℕ → Group → Store db → Str → Option Group
  with_group written idx g s k =
      if written
      then (if str_eq (db.to_lower g.group) k then some (stamped idx g s) else group_at k s)
      else group_at k s

  written-group :
      (idx : ℕ) (g : Group) (s : Store db) (k : Str)
      → group_at k (apply_message db idx (register_group g) s).0
        ≡ with_group (ensure_group db idx g s).1 idx g s k
  unfolding apply_message step
  written-group idx g s k =
      go (ensure_group db idx g s).1 (apply_message-view db idx (register_group g) s)
    where
      go :
          (b : Bool)
          → view db (apply_message db idx (register_group g) s).0
            ≡ (if b then step db.to_lower idx (register_group g) (view db s) else view db s)
          → group_at k (apply_message db idx (register_group g) s).0 ≡ with_group b idx g s k
      go true e = ap (λ w. w.group k) e
      go false e = ap (λ w. w.group k) e

  -- An entry that Raft has for a group changes that group and no other.
  pub after_entry-group :
      (result : RaftResult) (g : Group) (s : Store db) (k : Str)
      → group_at k (after_entry db result (register_group g) s)
        ≡ with_group (was_written result g s) (index_of result) g s k
  unfolding after_entry was_written
  after_entry-group (applied idx) g s k = written-group idx g s k
  after_entry-group dropped g s k = refl
  after_entry-group (lost idx) g s k = written-group idx g s k

  -- The assignments of a handler to a group of the store change it and no other.
  pub touch-group :
      (old g : Group) (c : Cluster db) (k : Str)
      → group_at k (touch db (some old) g c).store ≡ (
          if str_eq (db.to_lower g.group) k
          then Option.map (λ _. g) (group_at k c.store)
          else group_at k c.store)
  unfolding touch_store
  touch-group old g c k = db.group.first-mutate g c.store.group k

  pub touch-other :
      (found : Option Group) (g : Group) (c : Cluster db) (k : Str)
      → str_eq (db.to_lower g.group) k ≡ false
      → group_at k (touch db found g c).store ≡ group_at k c.store
  unfolding touch_store
  touch-other none g c k other = refl
  touch-other (some old) g c k other = ground (arith, touch-group old g c k)

  -- A row for the group's key covers what the assignments did to it.
  pub over_touched :
      (found : Option Group) (g x : Group) (c : Cluster db) (key k : Str)
      → db.to_lower g.group ≡ key
      → (if str_eq (db.to_lower g.group) k then some x else group_at k (touch db found g c).store)
        ≡ (if str_eq key k then some x else group_at k c.store)
  over_touched found g x c key k same =
      go (str_eq (db.to_lower g.group) k) refl
      ∙ ap (λ j. if str_eq j k then some x else group_at k c.store) same
    where
      go :
          (b : Bool)
          → str_eq (db.to_lower g.group) k ≡ b
          → (if b then some x else group_at k (touch db found g c).store)
            ≡ (if b then some x else group_at k c.store)
      go true e = refl
      go false e = touch-other found g c k e

  -- The group that is found, or made, has the key that was asked for.
  pub or_new-key :
      (id : Str) (broker : ℤ) (c : Cluster db)
      → db.to_lower (or_new (group_of db id c) id broker).group ≡ db.to_lower id
  or_new-key id broker c = go (group_of db id c) refl
    where
      go :
          (found : Option Group)
          → group_of db id c ≡ found
          → db.to_lower (or_new found id broker).group ≡ db.to_lower id
      go none e = refl
      go (some g) e = db.group.key-first (db.to_lower id) c.store.group g e

  -- The assignments of a handler to the group of a name, whether it is there or not.
  pub touched-group :
      (id : Str) (g : Group) (c : Cluster db) (k : Str)
      → db.to_lower g.group ≡ db.to_lower id
      → group_at k (touch db (group_of db id c) g c).store ≡ (
          if str_eq (db.to_lower id) k
          then Option.map (λ _. g) (group_at k c.store)
          else group_at k c.store)
  unfolding touch_store
  touched-group id g c k same = go (group_of db id c) refl
    where
      absent :
          (b : Bool)
          → str_eq (db.to_lower id) k ≡ b
          → group_of db id c ≡ none
          → group_at k c.store
            ≡ (if b then Option.map (λ _. g) (group_at k c.store) else group_at k c.store)
      absent true e n =
          let at : group_at k c.store ≡ none =
            subst (λ j. group_at j c.store ≡ none) (eq_of_str_eq (db.to_lower id) k e) n in
          at ∙ sym (ap (Option.map (λ _. g)) at)
      absent false e n = refl

      go :
          (found : Option Group)
          → group_of db id c ≡ found
          → group_at k (touch db found g c).store ≡ (
              if str_eq (db.to_lower id) k
              then Option.map (λ _. g) (group_at k c.store)
              else group_at k c.store)
      go none e = absent (str_eq (db.to_lower id) k) refl e
      go (some old) e =
          touch-group old g c k
          ∙ ap
              (λ j.
                if str_eq j k then Option.map (λ _. g) (group_at k c.store) else group_at k c.store)
              same
