-- ===== src/Broker/Topics/Background.antt =====
-- The functions that withTimeout of jocko/broker.go leaves in the background, when they delete topics.
use jocko.Common.{
  ℕ, zero, suc, ◌+◌, Bool, true, false, Option, none, some, List, [], ◌∷◌, ◌++◌, map, All, Str,
  get_elem?, ◌≡◌, refl, sym, ap, subst, ◌∙◌, if◌then◌else◌,
}
use jocko.Common.Int.{ℤ}
use jocko.Common.Eq.{str_Eq}
use jocko.Fsm.Store.{Database}
use jocko.Fsm.Apply.{deregister_topic}
use jocko.Broker.Errors.{err_none}
use jocko.Broker.Handled.{replied, panicked, ◌>>=◌}
use jocko.Broker.Raft.{RaftResult, Cluster, raft_apply}
use jocko.Broker.Replicas.{Local}
use jocko.Broker.Replicas.Roles.{Replies, Replies-bind}
use jocko.Broker.Topics.{Broker, Clock, Pending, delete, remove_at, is_immediate, new_topic}
use jocko.Broker.Topics.Handlers.{
  leave_behind, delete_entry, run_job, with_timeout, finish, catch_up, delete_round, delete_rounds,
}

-- A function that deletes a topic and that still has its channel.
abbrev pub IsDeletion : Pending → Type 0
IsDeletion p = (p.closed ≡ false) × ((name : Str) × (p.job ≡ delete name))

abbrev Found : Option Pending → Type 0
Found none = Unit
Found (some p) = IsDeletion p

get_elem?-Found : (ps : List Pending) (n : ℕ) → All IsDeletion ps → Found (get_elem? ps n)
get_elem?-Found [] n h = tt
get_elem?-Found (p ∷ ps) zero (one, h) = one
get_elem?-Found (p ∷ ps) (suc n) (one, h) = get_elem?-Found ps n h

All-remove_at : (n : ℕ) (ps : List Pending) → All IsDeletion ps → All IsDeletion (remove_at n ps)
All-remove_at n [] h = tt
All-remove_at zero (p ∷ ps) (one, h) = h
All-remove_at (suc n) (p ∷ ps) (one, h) = (one, All-remove_at n ps h)

All-append :
    (ps : List Pending) (p : Pending)
    → All IsDeletion ps
    → IsDeletion p
    → All IsDeletion (ps ++ (p ∷ []))
All-append [] p h last = (last, tt)
All-append (q ∷ ps) p (one, h) last = (one, All-append ps p h last)

-- A property of the cluster that no entry of a deletion ends.
module _ (db : Database) (local : Local) (outcomes : ℕ → RaftResult) (me : ℤ)
    (R : Cluster db → Type 0)
    (keeps : (name : Str) (c : Cluster db)
      → R c
      → R (raft_apply db outcomes (deregister_topic (new_topic name [])) c).0) where
  abbrev pub Keeping : Broker db local → Type 0
  Keeping b = R b.cluster × All IsDeletion b.background

  run_job-Keeping :
      (name : Str) (b : Broker db local)
      → Keeping b
      → Keeping (delete_entry db local outcomes name b).0
  unfolding delete_entry
  run_job-Keeping name b (r, h) = (keeps name b.cluster r, h)

  finish-Keeping :
      (found : Option Pending) (b : Broker db local)
      → Found found
      → Keeping b
      → Replies Keeping (finish db local outcomes me found b)
  unfolding finish run_job
  finish-Keeping none b f k = (b, refl, k)
  finish-Keeping (some p) b (waited, (name, e)) k =
      let b' = (delete_entry db local outcomes name b).0 in
      (
        b',
        ap
              (λ job. run_job db local outcomes me job b >>= λ (b', code).
                if p.closed then panicked else replied b')
              e
            ∙ ap (λ (closed : Bool). if closed then panicked else replied b') waited,
        run_job-Keeping name b k,
      )

  pub catch_up-Keeping :
      (ns : List ℕ) (b : Broker db local)
      → Keeping b
      → Replies Keeping (catch_up db local outcomes me ns b)
  unfolding catch_up
  catch_up-Keeping [] b k = (b, refl, k)
  catch_up-Keeping (n ∷ ns) b (r, h) =
      Replies-bind Keeping Keeping _ _
        (finish-Keeping (get_elem? b.background n)
          (record b { background = remove_at n b.background }) (get_elem?-Found b.background n h)
          (r, All-remove_at n b.background h))
        (λ b' k. catch_up-Keeping ns b' k)

  with_timeout-Keeping :
      (timeout : ℤ) (name : Str) (b : Broker db local)
      → Keeping b
      → Replies (λ a. Keeping a.0) (with_timeout db local outcomes me timeout false (delete name) b)
  unfolding with_timeout run_job
  with_timeout-Keeping timeout name b (r, h) = go (is_immediate timeout)
    where
      go :
          (immediate : Bool)
          → Replies
              (λ a. Keeping a.0)
              (if immediate
                then replied (leave_behind db local outcomes (delete name) false b, err_none)
                else run_job db local outcomes me (delete name) b)
      go true = (_, refl, (r, All-append b.background _ h (refl, (name, refl))))
      go false = (_, refl, run_job-Keeping name b (r, h))

  pub rounds-Keeping :
      (timeout : ℤ) (clocks : ℕ → Clock) (i : ℕ) (names : List Str) (b : Broker db local)
      → ((n : ℕ) → (clocks n).late ≡ false)
      → Keeping b
      → Replies
          (λ a. Keeping a.0 × (map (λ e. e.topic) a.1 ≡ names))
          (delete_rounds db local outcomes me timeout clocks i names b)
  unfolding delete_rounds delete_round
  rounds-Keeping timeout clocks i [] b waits k = (_, refl, (k, refl))
  rounds-Keeping timeout clocks i (name ∷ names) b waits k =
      Replies-bind (λ a. Keeping a.0 × (a.1.topic ≡ name)) _ _ _
        (Replies-bind Keeping _ _ _ (catch_up-Keeping (clocks i).finished b k) (λ b0 k0.
          Replies-bind (λ a. Keeping a.0) _ _ _
            (subst
              (λ late.
                Replies (λ a. Keeping a.0)
                  (with_timeout db local outcomes me timeout late (delete name) b0))
              (sym (waits i)) (with_timeout-Keeping timeout name b0 k0))
            (λ a k1. (_, refl, (k1, refl)))))
        (λ a (k1, e).
          Replies-bind (λ a. Keeping a.0 × (map (λ e. e.topic) a.1 ≡ names)) _ _ _
            (rounds-Keeping timeout clocks (i + 1) names a.0 waits k1)
            (λ a' (k2, e').
              (_, refl, (k2, ap (λ n. n ∷ map (λ e. e.topic) a'.1) e ∙ ap (λ l. name ∷ l) e'))))
