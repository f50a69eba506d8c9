-- ===== src/Protocol/Message/Offsets/RoundTrip.antt =====
-- The messages of Protocol/Message/Offsets over the wire.
use jocko.Common.{ℕ, ◌≤◌, ◌≡◌, List, length, All, drop}
use jocko.Common.Int.{ℤ, pos, negsuc}
use jocko.Common.Eq.{int_eq}
use jocko.Protocol.Fields.{at_least}
use jocko.Protocol.Outcome.{ok}
use jocko.Protocol.Codec.{wires}
use jocko.Protocol.Codec.Arrays.{All-map, string_first, int32_first}
use jocko.Protocol.Codec.Carries.{Carries, Carries-then, Carries-map, transmit, transmit-Carries}
use jocko.Protocol.Codec.Fields.{
  Int8, Int32, Int64, FitsStr, FitsInt32s, Absent, int8-Carries, int32-Carries, int64-Carries,
  string-Carries, int32_array-Carries, optional-Carries, array-Carries, minus_one-Carries,
}
use jocko.Protocol.Message.Offsets.{
  OffsetsPartition, OffsetsTopic, OffsetsRequest, OffsetFetchTopicRequest, OffsetFetchRequest,
  encode_offsets_partition, encode_offsets_topic, encode_offsets_request,
  encode_offset_fetch_topic_request, encode_offset_fetch_request, decode_offsets_partition,
  decode_offsets_topic, decode_offsets_request, decode_offset_fetch_topic_request,
  decode_offset_fetch_request,
}

pub record IsValidOffsetsPartition (version : ℤ) (r : OffsetsPartition) : Type 0 where
  pub partition : Int32 r.partition
  pub timestamp : Int64 r.timestamp
  pub max_num_offsets : Int32 r.max_num_offsets
  pub max_num_offsets_absent : Absent (int_eq version (pos 0)) r.max_num_offsets (pos 0)

pub record IsValidOffsetsTopic (version : ℤ) (r : OffsetsTopic) : Type 0 where
  pub topic : FitsStr r.topic
  pub partitions_length : length r.partitions ≤ 131070
  pub partitions : All (IsValidOffsetsPartition version) r.partitions

pub record IsValidOffsetsRequest (r : OffsetsRequest) : Type 0 where
  pub replica_id : r.replica_id ≡ negsuc 0
  pub isolation_level : Int8 r.isolation_level
  pub isolation_level_absent : Absent (at_least 2 r.api_version) r.isolation_level (pos 0)
  pub topics_length : length r.topics ≤ 131070
  pub topics : All (IsValidOffsetsTopic r.api_version) r.topics

pub record IsValidOffsetFetchTopicRequest (r : OffsetFetchTopicRequest) : Type 0 where
  pub topic : FitsStr r.topic
  pub partitions : FitsInt32s r.partitions

pub record IsValidOffsetFetchRequest (r : OffsetFetchRequest) : Type 0 where
  pub group_id : FitsStr r.group_id
  pub topics_length : length r.topics ≤ 131070
  pub topics : All IsValidOffsetFetchTopicRequest r.topics

offsets_partition_bytes :
    (version : ℤ) (r : OffsetsPartition) → 1 ≤ length (wires (encode_offsets_partition version r))
unfolding encode_offsets_partition
offsets_partition_bytes version r =
    int32_first r.partition (drop 1 (encode_offsets_partition version r))

offsets_partition-Carries :
    (version : ℤ) (r : OffsetsPartition)
    → IsValidOffsetsPartition version r
    → Carries (decode_offsets_partition version) (encode_offsets_partition version r) r
unfolding encode_offsets_partition decode_offsets_partition
offsets_partition-Carries version r h = Carries-then _ (int32-Carries r.partition h.partition) (
    Carries-then _ (int64-Carries r.timestamp h.timestamp) (
      Carries-map _ (
        optional-Carries (int_eq version (pos 0)) r.max_num_offsets (pos 0)
          (int32-Carries r.max_num_offsets h.max_num_offsets) h.max_num_offsets_absent)))

offsets_topic_bytes :
    (version : ℤ) (r : OffsetsTopic) → 1 ≤ length (wires (encode_offsets_topic version r))
unfolding encode_offsets_topic
offsets_topic_bytes version r = string_first r.topic (drop 1 (encode_offsets_topic version r))

offsets_topic-Carries :
    (version : ℤ) (r : OffsetsTopic)
    → IsValidOffsetsTopic version r
    → Carries (decode_offsets_topic version) (encode_offsets_topic version r) r
unfolding encode_offsets_topic decode_offsets_topic
offsets_topic-Carries version r h = Carries-then _ (string-Carries r.topic h.topic) (
    Carries-map _ (
      array-Carries _ (encode_offsets_partition version) r.partitions
        (offsets_partition_bytes version) h.partitions_length
        (All-map (IsValidOffsetsPartition version) _ r.partitions
          (offsets_partition-Carries version) h.partitions)))

offsets_request-Carries :
    (r : OffsetsRequest)
    → IsValidOffsetsRequest r
    → Carries (decode_offsets_request r.api_version) (encode_offsets_request r) r
unfolding encode_offsets_request decode_offsets_request
offsets_request-Carries r h = Carries-then _ (minus_one-Carries r.replica_id h.replica_id) (
    Carries-then _
      (optional-Carries (at_least 2 r.api_version) r.isolation_level (pos 0)
        (int8-Carries r.isolation_level h.isolation_level) h.isolation_level_absent)
      (Carries-map _ (
        array-Carries _ (encode_offsets_topic r.api_version) r.topics
          (offsets_topic_bytes r.api_version) h.topics_length
          (All-map (IsValidOffsetsTopic r.api_version) _ r.topics
            (offsets_topic-Carries r.api_version) h.topics))))

offset_fetch_topic_request_bytes :
    (r : OffsetFetchTopicRequest) → 1 ≤ length (wires (encode_offset_fetch_topic_request r))
unfolding encode_offset_fetch_topic_request
offset_fetch_topic_request_bytes r =
    string_first r.topic (drop 1 (encode_offset_fetch_topic_request r))

offset_fetch_topic_request-Carries :
    (r : OffsetFetchTopicRequest)
    → IsValidOffsetFetchTopicRequest r
    → Carries decode_offset_fetch_topic_request (encode_offset_fetch_topic_request r) r
unfolding encode_offset_fetch_topic_request decode_offset_fetch_topic_request
offset_fetch_topic_request-Carries r h =
    Carries-then _ (string-Carries r.topic h.topic)
      (Carries-map _ (int32_array-Carries r.partitions h.partitions))

offset_fetch_request-Carries :
    (r : OffsetFetchRequest)
    → IsValidOffsetFetchRequest r
    → Carries (decode_offset_fetch_request r.api_version) (encode_offset_fetch_request r) r
unfolding encode_offset_fetch_request decode_offset_fetch_request
offset_fetch_request-Carries r h = Carries-then _ (string-Carries r.group_id h.group_id) (
    Carries-map _ (
      array-Carries _ encode_offset_fetch_topic_request r.topics offset_fetch_topic_request_bytes
        h.topics_length
        (All-map IsValidOffsetFetchTopicRequest _ r.topics offset_fetch_topic_request-Carries
          h.topics)))

-- OffsetsRequest, of replica -1, and OffsetFetchRequest over the wire: Encode succeeds on a
-- message, and Decode at the version of the message reads it back from the bytes, to the last of
-- them, when the following holds: numbers are in the range of their types; strings have at most
-- 32767 bytes and the other lengths fit an int32; arrays of structures have at most 131070 items; a
-- field that the version does not send is zero: MaxNumOffsets at a version other than 0 and the
-- isolation level below version 2, both of OffsetsRequest.
pub transmit-offsets :
    (crc32 : List ℕ → ℕ) (req : OffsetsRequest) (res : OffsetFetchRequest)
    → IsValidOffsetsRequest req
    → IsValidOffsetFetchRequest res
    → (transmit crc32 (encode_offsets_request req) (decode_offsets_request req.api_version)
        ≡ ok (req, 0))
      × (transmit crc32
            (encode_offset_fetch_request res)
            (decode_offset_fetch_request res.api_version)
          ≡ ok (res, 0))
transmit-offsets crc32 req res hreq hres = (
  transmit-Carries crc32 _ _ req (offsets_request-Carries req hreq),
  transmit-Carries crc32 _ _ res (offset_fetch_request-Carries res hres),
)
