-- ===== src/Protocol/Message/Offsets.antt =====
-- protocol/offsets_request.go and offset_fetch_request.go
pub mod RoundTrip
use jocko.Common.{
  ℕ, zero, ◌≤◌, ◌≡◌, sym, subst, Bool, true, false, Option, none, some, List, [], ◌∷◌, ◌++◌, length,
  All, Str, drop, ap,
}
use jocko.Common.Int.{ℤ, pos, negsuc}
use jocko.Common.Eq.{int_eq}
use jocko.Protocol.Encoder.{PutOp}
use jocko.Protocol.Decoder
use jocko.Protocol.Decoder.{Decode, ◌>>=◌, pure}
use jocko.Protocol.Decoder.Arrays.{array}
use jocko.Protocol.Codec.Arrays.{put_array}
use jocko.Protocol.Fields.{
  at_least, when, optional, put_duration, duration, put_time, time, zero_time, put_flag, or_nil,
}

pub record OffsetsPartition : Type 0 where
  pub partition : ℤ
  pub timestamp : ℤ
  pub max_num_offsets : ℤ

pub record OffsetsTopic : Type 0 where
  pub topic : Str
  pub partitions : List OffsetsPartition

pub record OffsetsRequest : Type 0 where
  pub api_version : ℤ
  pub replica_id : ℤ
  pub isolation_level : ℤ
  pub topics : List OffsetsTopic

pub record OffsetFetchTopicRequest : Type 0 where
  pub topic : Str
  pub partitions : List ℤ

pub record OffsetFetchRequest : Type 0 where
  pub api_version : ℤ
  pub group_id : Str
  pub topics : List OffsetFetchTopicRequest

unfoldable pub encode_offsets_partition : ℤ → OffsetsPartition → List PutOp
encode_offsets_partition version r =
    PutOp.int32 r.partition
    ∷ PutOp.int64 r.timestamp
    ∷ when (int_eq version (pos 0)) (PutOp.int32 r.max_num_offsets ∷ [])

unfoldable pub encode_offsets_topic : ℤ → OffsetsTopic → List PutOp
unfolding encode_offsets_partition
encode_offsets_topic version r =
    PutOp.string r.topic ∷ put_array (encode_offsets_partition version) r.partitions

unfoldable pub encode_offsets_request : OffsetsRequest → List PutOp
unfolding encode_offsets_topic
encode_offsets_request r =
    PutOp.int32 (negsuc 0) ∷ when (at_least 2 r.api_version) (PutOp.int8 r.isolation_level ∷ [])
    ++ (put_array (encode_offsets_topic r.api_version) r.topics)

unfoldable pub encode_offset_fetch_topic_request : OffsetFetchTopicRequest → List PutOp
encode_offset_fetch_topic_request r = PutOp.string r.topic ∷ PutOp.int32_array r.partitions ∷ []

unfoldable pub encode_offset_fetch_request : OffsetFetchRequest → List PutOp
unfolding encode_offset_fetch_topic_request
encode_offset_fetch_request r =
    PutOp.string r.group_id ∷ put_array encode_offset_fetch_topic_request r.topics

unfoldable pub decode_offsets_partition : ℤ → Decode OffsetsPartition
decode_offsets_partition version = do
  partition ← Decoder.int32
  timestamp ← Decoder.int64
  max_num_offsets ← optional (int_eq version (pos 0)) Decoder.int32 (pos 0)
  pure (record { partition = partition; timestamp = timestamp; max_num_offsets = max_num_offsets })

unfoldable pub decode_offsets_topic : ℤ → Decode OffsetsTopic
unfolding decode_offsets_partition
decode_offsets_topic version = do
  topic ← Decoder.string
  partitions ← array (decode_offsets_partition version)
  pure (record { topic = topic; partitions = partitions })

unfoldable pub decode_offsets_request : ℤ → Decode OffsetsRequest
unfolding decode_offsets_topic
decode_offsets_request version = do
  replica_id ← Decoder.int32
  isolation_level ← optional (at_least 2 version) Decoder.int8 (pos 0)
  topics ← array (decode_offsets_topic version)
  pure (record {
    api_version = version;
    replica_id = replica_id;
    isolation_level = isolation_level;
    topics = topics;
  })

unfoldable pub decode_offset_fetch_topic_request : Decode OffsetFetchTopicRequest
decode_offset_fetch_topic_request = do
  topic ← Decoder.string
  partitions ← Decoder.int32_array
  pure (record { topic = topic; partitions = partitions })

unfoldable pub decode_offset_fetch_request : ℤ → Decode OffsetFetchRequest
unfolding decode_offset_fetch_topic_request
decode_offset_fetch_request version = do
  group_id ← Decoder.string
  topics ← array decode_offset_fetch_topic_request
  pure (record { api_version = version; group_id = group_id; topics = topics })
