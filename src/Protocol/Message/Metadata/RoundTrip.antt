-- ===== src/Protocol/Message/Metadata/RoundTrip.antt =====
-- The messages of Protocol/Message/Metadata over the wire.
use jocko.Common.{ℕ, ◌≤◌, ◌≡◌, false, List, length, All, drop}
use jocko.Common.Int.{pos}
use jocko.Protocol.Fields.{at_least}
use jocko.Protocol.Outcome.{ok}
use jocko.Protocol.Codec.{wires}
use jocko.Protocol.Codec.Arrays.{All-map, int32_first}
use jocko.Protocol.Codec.Carries.{Carries, Carries-then, Carries-map, transmit, transmit-Carries}
use jocko.Protocol.Codec.Fields.{
  Int16, Int32, FitsStr, FitsInt32s, FitsStrs, Absent, bool-Carries, int16-Carries, int32-Carries,
  string-Carries, int32_array-Carries, string_array-Carries, optional-Carries, array-Carries,
  or_nil-Carries, int16_first,
}
use jocko.Protocol.Message.Metadata.{
  MetadataRequest, Broker, PartitionMetadata, TopicMetadata, MetadataResponse,
  encode_metadata_request, encode_broker, encode_partition_metadata, encode_topic_metadata,
  encode_metadata_response, decode_metadata_request, decode_broker, decode_partition_metadata,
  decode_topic_metadata, decode_metadata_response,
}

pub record IsValidMetadataRequest (r : MetadataRequest) : Type 0 where
  pub topics : FitsStrs r.topics
  pub allow_auto_topic_creation_absent :
      Absent (at_least 4 r.api_version) r.allow_auto_topic_creation false

pub record IsValidBroker (r : Broker) : Type 0 where
  pub node_id : Int32 r.node_id
  pub host : FitsStr r.host
  pub port : Int32 r.port

pub record IsValidPartitionMetadata (r : PartitionMetadata) : Type 0 where
  pub partition_error_code : Int16 r.partition_error_code
  pub partition_id : Int32 r.partition_id
  pub leader : Int32 r.leader
  pub replicas : FitsInt32s r.replicas
  pub isr : FitsInt32s r.isr

pub record IsValidTopicMetadata (r : TopicMetadata) : Type 0 where
  pub topic_error_code : Int16 r.topic_error_code
  pub topic : FitsStr r.topic
  pub partition_metadata_length : length r.partition_metadata ≤ 131070
  pub partition_metadata : All IsValidPartitionMetadata r.partition_metadata

pub record IsValidMetadataResponse (r : MetadataResponse) : Type 0 where
  pub brokers_length : length r.brokers ≤ 131070
  pub brokers : All IsValidBroker r.brokers
  pub controller_id : Int32 r.controller_id
  pub controller_id_absent : Absent (at_least 1 r.api_version) r.controller_id (pos 0)
  pub topic_metadata_length : length r.topic_metadata ≤ 131070
  pub topic_metadata : All IsValidTopicMetadata r.topic_metadata

metadata_request-Carries :
    (r : MetadataRequest)
    → IsValidMetadataRequest r
    → Carries (decode_metadata_request r.api_version) (encode_metadata_request r) r
unfolding encode_metadata_request decode_metadata_request
metadata_request-Carries r h = Carries-then _ (string_array-Carries r.topics h.topics) (
    Carries-map _ (
      optional-Carries (at_least 4 r.api_version) r.allow_auto_topic_creation false
        (bool-Carries r.allow_auto_topic_creation) h.allow_auto_topic_creation_absent))

broker_bytes : (r : Broker) → 1 ≤ length (wires (encode_broker r))
unfolding encode_broker
broker_bytes r = int32_first r.node_id (drop 1 (encode_broker r))

broker-Carries : (r : Broker) → IsValidBroker r → Carries decode_broker (encode_broker r) r
unfolding encode_broker decode_broker
broker-Carries r h =
    Carries-then _ (int32-Carries r.node_id h.node_id)
      (Carries-then _ (string-Carries r.host h.host) (Carries-map _ (int32-Carries r.port h.port)))

partition_metadata_bytes :
    (r : PartitionMetadata) → 1 ≤ length (wires (encode_partition_metadata r))
unfolding encode_partition_metadata
partition_metadata_bytes r =
    int16_first r.partition_error_code (drop 1 (encode_partition_metadata r))

partition_metadata-Carries :
    (r : PartitionMetadata)
    → IsValidPartitionMetadata r
    → Carries decode_partition_metadata (encode_partition_metadata r) r
unfolding encode_partition_metadata decode_partition_metadata
partition_metadata-Carries r h =
    Carries-then _ (int16-Carries r.partition_error_code h.partition_error_code) (
      Carries-then _ (int32-Carries r.partition_id h.partition_id) (
        Carries-then _ (int32-Carries r.leader h.leader) (
          Carries-then _ (int32_array-Carries r.replicas h.replicas)
            (Carries-map _ (or_nil-Carries (int32_array-Carries r.isr h.isr))))))

topic_metadata_bytes : (r : TopicMetadata) → 1 ≤ length (wires (encode_topic_metadata r))
unfolding encode_topic_metadata
topic_metadata_bytes r = int16_first r.topic_error_code (drop 1 (encode_topic_metadata r))

topic_metadata-Carries :
    (r : TopicMetadata)
    → IsValidTopicMetadata r
    → Carries decode_topic_metadata (encode_topic_metadata r) r
unfolding encode_topic_metadata decode_topic_metadata
topic_metadata-Carries r h = Carries-then _ (int16-Carries r.topic_error_code h.topic_error_code) (
    Carries-then _ (string-Carries r.topic h.topic) (
      Carries-map _ (
        array-Carries _ encode_partition_metadata r.partition_metadata partition_metadata_bytes
          h.partition_metadata_length
          (All-map IsValidPartitionMetadata _ r.partition_metadata partition_metadata-Carries
            h.partition_metadata))))

metadata_response-Carries :
    (r : MetadataResponse)
    → IsValidMetadataResponse r
    → Carries (decode_metadata_response r.api_version) (encode_metadata_response r) r
unfolding encode_metadata_response decode_metadata_response
metadata_response-Carries r h =
    Carries-then _
      (array-Carries _ encode_broker r.brokers broker_bytes h.brokers_length
        (All-map IsValidBroker _ r.brokers broker-Carries h.brokers))
      (Carries-then _
        (optional-Carries (at_least 1 r.api_version) r.controller_id (pos 0)
          (int32-Carries r.controller_id h.controller_id) h.controller_id_absent)
        (Carries-map _ (
          array-Carries _ encode_topic_metadata r.topic_metadata topic_metadata_bytes
            h.topic_metadata_length
            (All-map IsValidTopicMetadata _ r.topic_metadata topic_metadata-Carries
              h.topic_metadata))))

-- MetadataRequest and MetadataResponse over the wire: Encode succeeds on a message, and Decode at
-- the version of the message reads it back from the bytes, to the last of them, when the following
-- holds: numbers are in the range of their types; strings have at most 32767 bytes and the other
-- lengths fit an int32; arrays of structures have at most 131070 items; a field that the version
-- does not send is zero: AllowAutoTopicCreation of a request below version 4, the controller id of
-- a response below 1.
pub transmit-metadata :
    (crc32 : List ℕ → ℕ) (req : MetadataRequest) (res : MetadataResponse)
    → IsValidMetadataRequest req
    → IsValidMetadataResponse res
    → (transmit crc32 (encode_metadata_request req) (decode_metadata_request req.api_version)
        ≡ ok (req, 0))
      × (transmit crc32 (encode_metadata_response res) (decode_metadata_response res.api_version)
          ≡ ok (res, 0))
transmit-metadata crc32 req res hreq hres = (
  transmit-Carries crc32 _ _ req (metadata_request-Carries req hreq),
  transmit-Carries crc32 _ _ res (metadata_response-Carries res hres),
)
