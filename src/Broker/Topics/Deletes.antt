-- ===== src/Broker/Topics/Deletes.antt =====
-- handleDeleteTopics of jocko/broker.go.
use jocko.Common.{
  ℕ, ◌+◌, Bool, true, false, none, List, [], ◌∷◌, map, All, Str, str_eq, str_eq_refl, ◌≡◌, refl, ap,
  subst, ◌∙◌, if◌then◌else◌, ◌⊎◌, inl, inr,
}
use jocko.Common.Int.{ℤ}
use jocko.Common.Eq.{str_Eq}
use jocko.Fsm.Store.{Database, Store, get_topic, delete_topic}
use jocko.Fsm.Apply.{deregister_topic}
use jocko.Protocol.Message.Topics.{DeleteTopicsRequest}
use jocko.Broker.Errors.{err_none, err_unknown, err_request_timed_out}
use jocko.Broker.Handled.{replied, ◌>>=◌}
use jocko.Broker.Raft.{RaftResult, is_fine, applied, Cluster, after_entry, raft_apply}
use jocko.Broker.Replicas.{Local}
use jocko.Broker.Replicas.Roles.{Replies, Replies-bind}
use jocko.Broker.Topics.{Broker, Clock, Job, delete, is_immediate, new_topic}
use jocko.Broker.Topics.Handlers.{
  topic_error, leave_behind, delete_entry, run_job, with_timeout, delete_round, delete_rounds,
  handle_delete_topics,
}
use jocko.Broker.Topics.Entries.{topic_at}
use jocko.Broker.Topics.Background.{IsDeletion, catch_up-Keeping}
use jocko.Broker.Topics.Removals.{entry-topics}

module _ (db : Database) (local : Local) (outcomes : ℕ → RaftResult) (me : ℤ) where
  -- The function of a round that is waited for runs in the round.
  with_timeout-waited :
      (timeout : ℤ) (late : Bool) (job : Job) (b : Broker db local)
      → is_immediate timeout ≡ false
      → late ≡ false
      → with_timeout db local outcomes me timeout late job b ≡ run_job db local outcomes me job b
  unfolding with_timeout
  with_timeout-waited timeout late job b positive waits =
      ap
        (λ immediate.
          if immediate
          then replied (leave_behind db local outcomes job false b, err_none)
          else (if late
              then replied (leave_behind db local outcomes job true b, err_request_timed_out)
              else run_job db local outcomes me job b))
        positive
      ∙ ap
          (λ (late : Bool).
            if late
            then replied (leave_behind db local outcomes job true b, err_request_timed_out)
            else run_job db local outcomes me job b)
          waits

  -- The topics of the keys are not in the store.
  abbrev Gone : (Str → Type 0) → Cluster db → Type 0
  Gone P c = (k : Str) → P k → topic_at db k c.store ≡ none

  abbrev AreGone : List Str → Cluster db → Type 0
  AreGone names c = All (λ name. topic_at db (db.to_lower name) c.store ≡ none) names

  module _ (index : ℕ → ℕ) (applies : (n : ℕ) → outcomes n ≡ applied (index n))
      (deletes : (idx : ℕ) (name : Str) (s : Store db)
        → (delete_topic db idx name s).1 ≡ true) where
    abbrev deleted : Str → Cluster db → Cluster db
    deleted name c = (raft_apply db outcomes (deregister_topic (new_topic name [])) c).0

    deleted-topics :
        (name : Str) (c : Cluster db) (k : Str)
        → topic_at db k (deleted name c).store
          ≡ (if str_eq (db.to_lower name) k then none else topic_at db k c.store)
    unfolding raft_apply after_entry
    deleted-topics name c k =
        ap (λ o. topic_at db k (after_entry db o (deregister_topic (new_topic name [])) c.store))
          (applies c.calls)
        ∙ entry-topics db (index c.calls) (new_topic name []) c.store k
            (deletes (index c.calls) name c.store)

    deleted-Gone :
        (P : Str → Type 0) (name : Str) (c : Cluster db) → Gone P c → Gone P (deleted name c)
    deleted-Gone P name c gone k h = deleted-topics name c k ∙ go (str_eq (db.to_lower name) k)
      where
        go : (b : Bool) → (if b then none else topic_at db k c.store) ≡ none
        go true = refl
        go false = gone k h

    deleted-gone :
        (name : Str) (c : Cluster db) → topic_at db (db.to_lower name) (deleted name c).store ≡ none
    deleted-gone name c =
        deleted-topics name c (db.to_lower name)
        ∙ ap (λ b. if b then none else topic_at db (db.to_lower name) c.store)
            (str_eq_refl (db.to_lower name))

    -- One more key that is gone.
    abbrev Or : Str → (Str → Type 0) → Str → Type 0
    Or name P k = (db.to_lower name ≡ k) ⊎ P k

    deleted-Or :
        (P : Str → Type 0) (name : Str) (c : Cluster db)
        → Gone P c
        → Gone (Or name P) (deleted name c)
    deleted-Or P name c gone k (inl e) =
        subst (λ j. topic_at db j (deleted name c).store ≡ none) e (deleted-gone name c)
    deleted-Or P name c gone k (inr h) = deleted-Gone P name c gone k h

    abbrev After : (Str → Type 0) → Broker db local → Type 0
    After P b = Gone P b.cluster × All IsDeletion b.background

    delete_entry-After :
        (P : Str → Type 0) (name : Str) (b : Broker db local)
        → After P b
        → After (Or name P) (delete_entry db local outcomes name b).0
          × ((delete_entry db local outcomes name b).1 ≡ err_none)
    unfolding delete_entry raft_apply
    delete_entry-After P name b (gone, left) = (
      (deleted-Or P name b.cluster gone, left),
      ap (λ o. if is_fine o then err_none else err_unknown) (applies b.cluster.calls),
    )

    round-After :
        (P : Str → Type 0) (timeout : ℤ) (clock : Clock) (name : Str) (b : Broker db local)
        → is_immediate timeout ≡ false
        → clock.late ≡ false
        → After P b
        → Replies
            (λ a. After (Or name P) a.0 × (a.1 ≡ topic_error db local outcomes name err_none))
            (delete_round db local outcomes me timeout clock name b)
    unfolding delete_round run_job
    round-After P timeout clock name b positive waits h =
        Replies-bind (After P) _ _ _
          (catch_up-Keeping db local outcomes me (Gone P) (λ n c h. deleted-Gone P n c h)
            clock.finished b h)
          (λ b0 h0.
            let (after, fine) = delete_entry-After P name b0 h0 in
            (
              (
                (delete_entry db local outcomes name b0).0,
                topic_error db local outcomes name (delete_entry db local outcomes name b0).1,
              ),
              ap (λ o. o >>= λ (b', code). replied (b', topic_error db local outcomes name code))
                  (with_timeout-waited timeout clock.late (delete name) b0 positive waits),
              (after, ap (topic_error db local outcomes name) fine),
            ))

    rounds-After :
        (P : Str → Type 0) (timeout : ℤ) (clocks : ℕ → Clock) (i : ℕ) (names : List Str)
        (b : Broker db local)
        → is_immediate timeout ≡ false
        → ((n : ℕ) → (clocks n).late ≡ false)
        → After P b
        → Replies
            (λ a.
              Gone P a.0.cluster
              × AreGone names a.0.cluster
              × (a.1 ≡ map (λ name. topic_error db local outcomes name err_none) names))
            (delete_rounds db local outcomes me timeout clocks i names b)
    unfolding delete_rounds
    rounds-After P timeout clocks i [] b positive waits (gone, left) = (_, refl, (gone, tt, refl))
    rounds-After P timeout clocks i (name ∷ names) b positive waits h =
        Replies-bind
          (λ a. After (Or name P) a.0 × (a.1 ≡ topic_error db local outcomes name err_none)) _ _ _
          (round-After P timeout (clocks i) name b positive (waits i) h)
          (λ a (h1, e).
            Replies-bind
              (λ a.
                Gone (Or name P) a.0.cluster
                × AreGone names a.0.cluster
                × (a.1 ≡ map (λ name. topic_error db local outcomes name err_none) names))
              _ _ _ (rounds-After (Or name P) timeout clocks (i + 1) names a.0 positive waits h1)
              (λ a' (gone, all, e'). (
                _,
                refl,
                (
                  (λ k h. gone k (inr h)),
                  (gone (db.to_lower name) (inl refl), all),
                  ap (λ l. a.1 ∷ l) e'
                      ∙ ap
                          (λ o. o ∷ map (λ name. topic_error db local outcomes name err_none) names)
                          e,
                ),
              )))

  -- On the controller, when the request has a positive timeout, no timer fires before the function
  -- it is for ends, Raft applies every entry, the database deletes what it is asked to, and every
  -- function that the broker left behind deletes a topic and has its channel open,
  -- handleDeleteTopics replies, no topic of the request is in the store afterwards, and the response
  -- has each of them in order with no error. This holds whichever of the functions left behind end
  -- meanwhile.
  pub handle_delete_topics-gone :
      (index : ℕ → ℕ) (clocks : ℕ → Clock) (reqs : DeleteTopicsRequest) (b : Broker db local)
      → is_immediate reqs.timeout ≡ false
      → All IsDeletion b.background
      → ((n : ℕ) → (clocks n).late ≡ false)
      → ((n : ℕ) → outcomes n ≡ applied (index n))
      → ((idx : ℕ) (name : Str) (s : Store db) → (delete_topic db idx name s).1 ≡ true)
      → Replies
          (λ a.
            All (λ name. (get_topic db name a.0.cluster.store).1 ≡ none) reqs.topics
            × (a.1 ≡ map (λ name. topic_error db local outcomes name err_none) reqs.topics))
          (handle_delete_topics db local outcomes me true clocks reqs b)
  unfolding handle_delete_topics
  handle_delete_topics-gone index clocks reqs b positive left waits applies deletes =
      let (a, e, (gone, all, codes)) =
        rounds-After index applies deletes (λ k. topic_at db k b.cluster.store ≡ none) reqs.timeout
          clocks 0 reqs.topics b positive waits ((λ k h. h), left) in
      (a, e, (all, codes))
