-- ===== src/Protocol/Message/Produce.antt =====
-- protocol/produce_request.go and produce_response.go
pub mod RoundTrip
use jocko.Common.{
  ℕ, zero, ◌≤◌, ◌≡◌, sym, subst, Bool, true, false, Option, none, some, List, [], ◌∷◌, ◌++◌, length,
  All, Str, drop, ap,
}
use jocko.Common.Int.{ℤ, pos, negsuc}
use jocko.Common.Eq.{int_eq}
use jocko.Protocol.Encoder.{PutOp}
use jocko.Protocol.Decoder
use jocko.Protocol.Decoder.{Decode, ◌>>=◌, pure}
use jocko.Protocol.Decoder.Arrays.{array}
use jocko.Protocol.Codec.Arrays.{put_array}
use jocko.Protocol.Fields.{
  at_least, when, optional, put_duration, duration, put_time, time, zero_time, put_flag, or_nil,
}

pub record Data : Type 0 where
  pub partition : ℤ
  pub record_set : Option (List ℕ)

pub record TopicData : Type 0 where
  pub topic : Str
  pub data_sets : List Data

pub record ProduceRequest : Type 0 where
  pub api_version : ℤ
  pub transactional_id : Option Str
  pub acks : ℤ
  pub timeout : ℤ
  pub topic_data : List TopicData

pub record ProducePartitionResponse : Type 0 where
  pub partition : ℤ
  pub error_code : ℤ
  pub base_offset : ℤ
  pub log_append_time : ℤ
  pub log_start_offset : ℤ

pub record ProduceTopicResponse : Type 0 where
  pub topic : Str
  pub partition_responses : List ProducePartitionResponse

pub record ProduceResponse : Type 0 where
  pub api_version : ℤ
  pub responses : List ProduceTopicResponse
  pub throttle_time : ℤ

unfoldable pub encode_data : Data → List PutOp
encode_data r = PutOp.int32 r.partition ∷ PutOp.bytes r.record_set ∷ []

unfoldable pub encode_topic_data : TopicData → List PutOp
unfolding encode_data
encode_topic_data r = PutOp.string r.topic ∷ put_array encode_data r.data_sets

unfoldable pub encode_produce_request : ProduceRequest → List PutOp
unfolding encode_topic_data
encode_produce_request r =
    when (at_least 3 r.api_version) (PutOp.nullable_string r.transactional_id ∷ [])
    ++ (PutOp.int16 r.acks ∷ put_duration r.timeout ∷ put_array encode_topic_data r.topic_data)

unfoldable pub encode_produce_partition_response : ℤ → ProducePartitionResponse → List PutOp
encode_produce_partition_response version r =
    PutOp.int32 r.partition
      ∷ PutOp.int16 r.error_code
      ∷ when (at_least 2 version) (PutOp.int64 r.base_offset ∷ [])
    ++ (when (at_least 2 version) (put_time r.log_append_time ∷ [])
        ++ (when (at_least 5 version) (PutOp.int64 r.log_start_offset ∷ [])))

unfoldable pub encode_produce_topic_response : ℤ → ProduceTopicResponse → List PutOp
unfolding encode_produce_partition_response
encode_produce_topic_response version r =
    PutOp.string r.topic
    ∷ put_array (encode_produce_partition_response version) r.partition_responses

unfoldable pub encode_produce_response : ProduceResponse → List PutOp
unfolding encode_produce_topic_response
encode_produce_response r =
    put_array (encode_produce_topic_response r.api_version) r.responses
    ++ (when (at_least 1 r.api_version) (put_duration r.throttle_time ∷ []))

unfoldable pub decode_data : Decode Data
decode_data = do
  partition ← Decoder.int32
  record_set ← Decoder.bytes
  pure (record { partition = partition; record_set = record_set })

unfoldable pub decode_topic_data : Decode TopicData
unfolding decode_data
decode_topic_data = do
  topic ← Decoder.string
  data_sets ← array decode_data
  pure (record { topic = topic; data_sets = data_sets })

unfoldable pub decode_produce_request : ℤ → Decode ProduceRequest
unfolding decode_topic_data
decode_produce_request version = do
  transactional_id ← optional (at_least 3 version) Decoder.nullable_string none
  acks ← Decoder.int16
  timeout ← duration
  topic_data ← array decode_topic_data
  pure (record {
    api_version = version;
    transactional_id = transactional_id;
    acks = acks;
    timeout = timeout;
    topic_data = topic_data;
  })

unfoldable pub decode_produce_partition_response : ℤ → Decode ProducePartitionResponse
decode_produce_partition_response version = do
  partition ← Decoder.int32
  error_code ← Decoder.int16
  base_offset ← Decoder.int64
  log_append_time ← optional (at_least 2 version) time zero_time
  log_start_offset ← optional (at_least 5 version) Decoder.int64 (pos 0)
  pure (record {
    partition = partition;
    error_code = error_code;
    base_offset = base_offset;
    log_append_time = log_append_time;
    log_start_offset = log_start_offset;
  })

unfoldable pub decode_produce_topic_response : ℤ → Decode ProduceTopicResponse
unfolding decode_produce_partition_response
decode_produce_topic_response version = do
  topic ← Decoder.string
  partition_responses ← array (decode_produce_partition_response version)
  pure (record { topic = topic; partition_responses = partition_responses })

unfoldable pub decode_produce_response : ℤ → Decode ProduceResponse
unfolding decode_produce_topic_response
decode_produce_response version = do
  responses ← array (decode_produce_topic_response version)
  throttle_time ← optional (at_least 1 version) duration (pos 0)
  pure (record { api_version = version; responses = responses; throttle_time = throttle_time })
