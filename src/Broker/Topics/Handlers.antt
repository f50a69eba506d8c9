-- ===== src/Broker/Topics/Handlers.antt =====
-- handleCreateTopic, handleDeleteTopics and withTimeout of jocko/broker.go.
use jocko.Common.{
  ℕ, ◌+◌, Bool, true, false, Option, none, some, List, [], ◌∷◌, map, Str, if◌then◌else◌, ◌++◌,
  get_elem?,
}
use jocko.Common.Int.{ℤ, pos}
use jocko.Common.Eq.{int_Eq}
use jocko.Fsm.Store.{Database}
use jocko.Fsm.Apply.{deregister_topic}
use jocko.Protocol.Message.Topics.{TopicErrorCode, CreateTopicsResponse, DeleteTopicsRequest}
use jocko.Broker.Errors.{
  err_none, err_unknown, err_not_controller, err_request_timed_out, err_invalid_replication_factor,
}
use jocko.Broker.Handled.{Handled, replied, panicked, ◌>>=◌}
use jocko.Broker.Raft.{RaftResult, raft_apply}
use jocko.Broker.Placement.{exceeds}
use jocko.Broker.Replicas.{Local}
use jocko.Broker.Topics.{
  Broker, Choices, Clock, Pending, Job, create, delete, CreateTopicRequest, CreateTopicRequests,
  remove_at, is_immediate, new_topic, create_topic,
}

module _ (db : Database) (local : Local) (outcomes : ℕ → RaftResult) where
  abbrev pub topic_error : Str → ℤ → TopicErrorCode
  topic_error name code = record { topic = name; error_code = code; error_message = none }

  -- The function of handleDeleteTopics; the topic of its entry has a name and nothing else.
  unfoldable pub delete_entry : Str → Broker db local → Broker db local × ℤ
  unfolding raft_apply
  delete_entry name b =
      let (c, fine) = raft_apply db outcomes (deregister_topic (new_topic name [])) b.cluster in
      (record b { cluster = c }, if fine then err_none else err_unknown)

  unfoldable pub run_job : ℤ → Job → Broker db local → Handled (Broker db local × ℤ)
  unfolding create_topic delete_entry
  run_job me (create choice req) b = create_topic db local outcomes me choice req b
  run_job me (delete name) b = replied (delete_entry name b)

  abbrev pub leave_behind : Job → Bool → Broker db local → Broker db local
  leave_behind job closed b = record b {
    background = b.background ++ (record { job = job; closed = closed } ∷ []);
  }

  -- withTimeout. A return on the timer closes the channel, and the function is still to send on it.
  unfoldable pub with_timeout : ℤ → ℤ → Bool → Job → Broker db local → Handled (Broker db local × ℤ)
  unfolding run_job
  with_timeout me timeout late job b =
      if is_immediate timeout
      then replied (leave_behind job false b, err_none)
      else (if late
          then replied (leave_behind job true b, err_request_timed_out)
          else run_job me job b)

  -- A function of the background runs; a send on a closed channel panics.
  unfoldable pub finish : ℤ → Option Pending → Broker db local → Handled (Broker db local)
  unfolding run_job
  finish me none b = replied b
  finish me (some p) b =
      run_job me p.job b >>= λ (b', code). if p.closed then panicked else replied b'

  unfoldable pub catch_up : ℤ → List ℕ → Broker db local → Handled (Broker db local)
  unfolding finish
  catch_up me [] b = replied b
  catch_up me (n ∷ ns) b =
      finish me (get_elem? b.background n) (record b { background = remove_at n b.background })
      >>= λ b'. catch_up me ns b'

  -- A round of the loop of the controller, with the number of Serf's members, which fits an int16.
  unfoldable pub create_round :
      ℤ
      → ℕ
      → ℤ
      → Choices
      → Clock
      → CreateTopicRequest
      → Broker db local
      → Handled (Broker db local × TopicErrorCode)
  unfolding with_timeout catch_up
  create_round me members timeout choice clock req b = catch_up me clock.finished b >>= λ b0.
      if exceeds req.replication_factor members
      then replied (b0, topic_error req.topic err_invalid_replication_factor)
      else (with_timeout me timeout clock.late (create choice req) b0 >>= λ (b', code).
          replied (b', topic_error req.topic code))

  unfoldable pub create_rounds :
      ℤ
      → ℕ
      → ℤ
      → (ℕ → Choices)
      → (ℕ → Clock)
      → ℕ
      → List CreateTopicRequest
      → Broker db local
      → Handled (Broker db local × List TopicErrorCode)
  unfolding create_round
  create_rounds me members timeout choices clocks i [] b = replied (b, [])
  create_rounds me members timeout choices clocks i (req ∷ reqs) b =
      create_round me members timeout (choices i) (clocks i) req b >>= λ (b', code).
      create_rounds me members timeout choices clocks (i + 1) reqs b' >>= λ (b'', codes).
      replied (b'', code ∷ codes)

  abbrev pub create_response : CreateTopicRequests → List TopicErrorCode → CreateTopicsResponse
  create_response reqs codes = record {
    api_version = reqs.api_version;
    throttle_time = pos 0;
    topic_error_codes = codes;
  }

  -- handleCreateTopic
  unfoldable pub handle_create_topic :
      ℤ
      → Bool
      → ℕ
      → (ℕ → Choices)
      → (ℕ → Clock)
      → CreateTopicRequests
      → Broker db local
      → Handled (Broker db local × CreateTopicsResponse)
  unfolding create_rounds
  handle_create_topic me is_controller members choices clocks reqs b =
      if is_controller
      then (create_rounds me members reqs.timeout choices clocks 0 reqs.requests b
          >>= λ (b', codes). replied (b', create_response reqs codes))
      else replied (
        b,
        create_response reqs (map (λ req. topic_error req.topic err_not_controller) reqs.requests),
      )

  -- A round of the loop of handleDeleteTopics on the controller.
  unfoldable pub delete_round :
      ℤ → ℤ → Clock → Str → Broker db local → Handled (Broker db local × TopicErrorCode)
  unfolding with_timeout catch_up
  delete_round me timeout clock name b = catch_up me clock.finished b >>= λ b0.
      with_timeout me timeout clock.late (delete name) b0 >>= λ (b', code).
      replied (b', topic_error name code)

  unfoldable pub delete_rounds :
      ℤ
      → ℤ
      → (ℕ → Clock)
      → ℕ
      → List Str
      → Broker db local
      → Handled (Broker db local × List TopicErrorCode)
  unfolding delete_round
  delete_rounds me timeout clocks i [] b = replied (b, [])
  delete_rounds me timeout clocks i (name ∷ names) b =
      delete_round me timeout (clocks i) name b >>= λ (b', code).
      delete_rounds me timeout clocks (i + 1) names b' >>= λ (b'', codes).
      replied (b'', code ∷ codes)

  -- handleDeleteTopics, with the codes of its response.
  unfoldable pub handle_delete_topics :
      ℤ
      → Bool
      → (ℕ → Clock)
      → DeleteTopicsRequest
      → Broker db local
      → Handled (Broker db local × List TopicErrorCode)
  unfolding delete_rounds
  handle_delete_topics me is_controller clocks reqs b =
      if is_controller
      then delete_rounds me reqs.timeout clocks 0 reqs.topics b
      else replied (b, map (λ name. topic_error name err_not_controller) reqs.topics)
