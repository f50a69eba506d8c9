-- ===== src/Protocol/Message/Metadata.antt =====
-- protocol/metadata_request.go and metadata_response.go
pub mod RoundTrip
use jocko.Common.{
  ℕ, zero, ◌≤◌, ◌≡◌, sym, subst, Bool, true, false, Option, none, some, List, [], ◌∷◌, ◌++◌, length,
  All, Str, drop, ap,
}
use jocko.Common.Int.{ℤ, pos, negsuc}
use jocko.Common.Eq.{int_eq}
use jocko.Protocol.Encoder.{PutOp}
use jocko.Protocol.Decoder
use jocko.Protocol.Decoder.{Decode, ◌>>=◌, pure}
use jocko.Protocol.Decoder.Arrays.{array}
use jocko.Protocol.Codec.Arrays.{put_array}
use jocko.Protocol.Fields.{
  at_least, when, optional, put_duration, duration, put_time, time, zero_time, put_flag, or_nil,
}

pub record MetadataRequest : Type 0 where
  pub api_version : ℤ
  pub topics : List Str
  pub allow_auto_topic_creation : Bool

pub record Broker : Type 0 where
  pub node_id : ℤ
  pub host : Str
  pub port : ℤ

pub record PartitionMetadata : Type 0 where
  pub partition_error_code : ℤ
  pub partition_id : ℤ
  pub leader : ℤ
  pub replicas : List ℤ
  pub isr : List ℤ

pub record TopicMetadata : Type 0 where
  pub topic_error_code : ℤ
  pub topic : Str
  pub partition_metadata : List PartitionMetadata

pub record MetadataResponse : Type 0 where
  pub api_version : ℤ
  pub brokers : List Broker
  pub controller_id : ℤ
  pub topic_metadata : List TopicMetadata

unfoldable pub encode_metadata_request : MetadataRequest → List PutOp
encode_metadata_request r =
    PutOp.string_array r.topics
    ∷ when (at_least 4 r.api_version) (PutOp.bool r.allow_auto_topic_creation ∷ [])

unfoldable pub encode_broker : Broker → List PutOp
encode_broker r = PutOp.int32 r.node_id ∷ PutOp.string r.host ∷ PutOp.int32 r.port ∷ []

unfoldable pub encode_partition_metadata : PartitionMetadata → List PutOp
encode_partition_metadata r =
    PutOp.int16 r.partition_error_code
    ∷ PutOp.int32 r.partition_id
    ∷ PutOp.int32 r.leader
    ∷ PutOp.int32_array r.replicas
    ∷ PutOp.int32_array r.isr
    ∷ []

unfoldable pub encode_topic_metadata : TopicMetadata → List PutOp
unfolding encode_partition_metadata
encode_topic_metadata r =
    PutOp.int16 r.topic_error_code
    ∷ PutOp.string r.topic
    ∷ put_array encode_partition_metadata r.partition_metadata

unfoldable pub encode_metadata_response : MetadataResponse → List PutOp
unfolding encode_broker encode_topic_metadata
encode_metadata_response r =
    put_array encode_broker r.brokers
    ++ (when (at_least 1 r.api_version) (PutOp.int32 r.controller_id ∷ [])
        ++ (put_array encode_topic_metadata r.topic_metadata))

unfoldable pub decode_metadata_request : ℤ → Decode MetadataRequest
decode_metadata_request version = do
  topics ← Decoder.string_array
  allow_auto_topic_creation ← optional (at_least 4 version) Decoder.bool false
  pure (record {
    api_version = version;
    topics = topics;
    allow_auto_topic_creation = allow_auto_topic_creation;
  })

unfoldable pub decode_broker : Decode Broker
decode_broker = do
  node_id ← Decoder.int32
  host ← Decoder.string
  port ← Decoder.int32
  pure (record { node_id = node_id; host = host; port = port })

unfoldable pub decode_partition_metadata : Decode PartitionMetadata
decode_partition_metadata = do
  partition_error_code ← Decoder.int16
  partition_id ← Decoder.int32
  leader ← Decoder.int32
  replicas ← Decoder.int32_array
  isr ← or_nil Decoder.int32_array
  pure (record {
    partition_error_code = partition_error_code;
    partition_id = partition_id;
    leader = leader;
    replicas = replicas;
    isr = isr;
  })

unfoldable pub decode_topic_metadata : Decode TopicMetadata
unfolding decode_partition_metadata
decode_topic_metadata = do
  topic_error_code ← Decoder.int16
  topic ← Decoder.string
  partition_metadata ← array decode_partition_metadata
  pure (record {
    topic_error_code = topic_error_code;
    topic = topic;
    partition_metadata = partition_metadata;
  })

unfoldable pub decode_metadata_response : ℤ → Decode MetadataResponse
unfolding decode_broker decode_topic_metadata
decode_metadata_response version = do
  brokers ← array decode_broker
  controller_id ← optional (at_least 1 version) Decoder.int32 (pos 0)
  topic_metadata ← array decode_topic_metadata
  pure (record {
    api_version = version;
    brokers = brokers;
    controller_id = controller_id;
    topic_metadata = topic_metadata;
  })
