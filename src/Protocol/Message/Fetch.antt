-- ===== src/Protocol/Message/Fetch.antt =====
-- protocol/fetch_request.go and fetch_response.go
pub mod RoundTrip
use jocko.Common.{
  ℕ, zero, ◌≤◌, ◌≡◌, sym, subst, Bool, true, false, Option, none, some, List, [], ◌∷◌, ◌++◌, length,
  All, Str, drop, ap,
}
use jocko.Common.Int.{ℤ, pos, negsuc}
use jocko.Common.Eq.{int_eq}
use jocko.Protocol.Encoder.{PutOp}
use jocko.Protocol.Decoder
use jocko.Protocol.Decoder.{Decode, ◌>>=◌, pure}
use jocko.Protocol.Decoder.Arrays.{array}
use jocko.Protocol.Codec.Arrays.{put_array}
use jocko.Protocol.Fields.{
  at_least, when, optional, put_duration, duration, put_time, time, zero_time, put_flag, or_nil,
}

pub record FetchPartition : Type 0 where
  pub partition : ℤ
  pub fetch_offset : ℤ
  pub max_bytes : ℤ

pub record FetchTopic : Type 0 where
  pub topic : Str
  pub partitions : List FetchPartition

pub record FetchRequest : Type 0 where
  pub api_version : ℤ
  pub replica_id : ℤ
  pub max_wait_time : ℤ
  pub min_bytes : ℤ
  pub max_bytes : ℤ
  pub isolation_level : ℤ
  pub topics : List FetchTopic

pub record AbortedTransaction : Type 0 where
  pub producer_id : ℤ
  pub first_offset : ℤ

pub record FetchPartitionResponse : Type 0 where
  pub partition : ℤ
  pub error_code : ℤ
  pub high_watermark : ℤ
  pub last_stable_offset : ℤ
  pub aborted_transactions : List AbortedTransaction
  pub record_set : Option (List ℕ)

pub record FetchTopicResponse : Type 0 where
  pub topic : Str
  pub partition_responses : List FetchPartitionResponse

pub record FetchResponse : Type 0 where
  pub api_version : ℤ
  pub throttle_time : ℤ
  pub responses : List FetchTopicResponse

-- The replica id 0 stands for a client, which sends -1.
abbrev pub client_replica : ℤ → ℤ
client_replica (pos zero) = negsuc 0
client_replica z = z

unfoldable pub encode_fetch_partition : FetchPartition → List PutOp
encode_fetch_partition r =
    PutOp.int32 r.partition ∷ PutOp.int64 r.fetch_offset ∷ PutOp.int32 r.max_bytes ∷ []

unfoldable pub encode_fetch_topic : FetchTopic → List PutOp
unfolding encode_fetch_partition
encode_fetch_topic r = PutOp.string r.topic ∷ put_array encode_fetch_partition r.partitions

unfoldable pub encode_fetch_request : FetchRequest → List PutOp
unfolding encode_fetch_topic
encode_fetch_request r =
    PutOp.int32 (client_replica r.replica_id)
      ∷ put_duration r.max_wait_time
      ∷ PutOp.int32 r.min_bytes
      ∷ when (at_least 3 r.api_version) (PutOp.int32 r.max_bytes ∷ [])
    ++ (when (at_least 4 r.api_version) (PutOp.int8 r.isolation_level ∷ [])
        ++ (put_array encode_fetch_topic r.topics))

unfoldable pub encode_aborted_transaction : AbortedTransaction → List PutOp
encode_aborted_transaction r = PutOp.int64 r.producer_id ∷ PutOp.int64 r.first_offset ∷ []

unfoldable pub encode_fetch_partition_response : ℤ → FetchPartitionResponse → List PutOp
unfolding encode_aborted_transaction
encode_fetch_partition_response version r =
    PutOp.int32 r.partition
      ∷ PutOp.int16 r.error_code
      ∷ PutOp.int64 r.high_watermark
      ∷ when (at_least 4 version) (PutOp.int64 r.last_stable_offset ∷ [])
    ++ (when (at_least 4 version) (put_array encode_aborted_transaction r.aborted_transactions)
        ++ (PutOp.bytes r.record_set ∷ []))

unfoldable pub encode_fetch_topic_response : ℤ → FetchTopicResponse → List PutOp
unfolding encode_fetch_partition_response
encode_fetch_topic_response version r =
    PutOp.string r.topic ∷ put_array (encode_fetch_partition_response version) r.partition_responses

unfoldable pub encode_fetch_response : FetchResponse → List PutOp
unfolding encode_fetch_topic_response
encode_fetch_response r =
    when (at_least 1 r.api_version) (put_duration r.throttle_time ∷ [])
    ++ (put_array (encode_fetch_topic_response r.api_version) r.responses)

unfoldable pub decode_fetch_partition : Decode FetchPartition
decode_fetch_partition = do
  partition ← Decoder.int32
  fetch_offset ← Decoder.int64
  max_bytes ← Decoder.int32
  pure (record { partition = partition; fetch_offset = fetch_offset; max_bytes = max_bytes })

unfoldable pub decode_fetch_topic : Decode FetchTopic
unfolding decode_fetch_partition
decode_fetch_topic = do
  topic ← Decoder.string
  partitions ← array decode_fetch_partition
  pure (record { topic = topic; partitions = partitions })

unfoldable pub decode_fetch_request : ℤ → Decode FetchRequest
unfolding decode_fetch_topic
decode_fetch_request version = do
  replica_id ← Decoder.int32
  max_wait_time ← duration
  min_bytes ← Decoder.int32
  max_bytes ← optional (at_least 3 version) Decoder.int32 (pos 0)
  isolation_level ← optional (at_least 4 version) Decoder.int8 (pos 0)
  topics ← array decode_fetch_topic
  pure (record {
    api_version = version;
    replica_id = replica_id;
    max_wait_time = max_wait_time;
    min_bytes = min_bytes;
    max_bytes = max_bytes;
    isolation_level = isolation_level;
    topics = topics;
  })

unfoldable pub decode_aborted_transaction : Decode AbortedTransaction
decode_aborted_transaction = do
  producer_id ← Decoder.int64
  first_offset ← Decoder.int64
  pure (record { producer_id = producer_id; first_offset = first_offset })

unfoldable pub decode_fetch_partition_response : ℤ → Decode FetchPartitionResponse
unfolding decode_aborted_transaction
decode_fetch_partition_response version = do
  partition ← Decoder.int32
  error_code ← Decoder.int16
  high_watermark ← Decoder.int64
  last_stable_offset ← optional (at_least 4 version) Decoder.int64 (pos 0)
  aborted_transactions ← optional (at_least 4 version) (array decode_aborted_transaction) []
  record_set ← Decoder.bytes
  pure (record {
    partition = partition;
    error_code = error_code;
    high_watermark = high_watermark;
    last_stable_offset = last_stable_offset;
    aborted_transactions = aborted_transactions;
    record_set = record_set;
  })

unfoldable pub decode_fetch_topic_response : ℤ → Decode FetchTopicResponse
unfolding decode_fetch_partition_response
decode_fetch_topic_response version = do
  topic ← Decoder.string
  partition_responses ← array (decode_fetch_partition_response version)
  pure (record { topic = topic; partition_responses = partition_responses })

unfoldable pub decode_fetch_response : ℤ → Decode FetchResponse
unfolding decode_fetch_topic_response
decode_fetch_response version = do
  throttle_time ← optional (at_least 1 version) duration (pos 0)
  responses ← array (decode_fetch_topic_response version)
  pure (record { api_version = version; throttle_time = throttle_time; responses = responses })
