-- ===== src/Protocol/Message/Produce/RoundTrip.antt =====
-- The messages of Protocol/Message/Produce over the wire.
use jocko.Common.{ℕ, ◌≤◌, ◌≡◌, true, none, List, length, All, drop}
use jocko.Common.Int.{ℤ, pos}
use jocko.Protocol.Fields.{at_least, zero_time}
use jocko.Protocol.Outcome.{ok}
use jocko.Protocol.Codec.{wires}
use jocko.Protocol.Codec.Arrays.{All-map, string_first, int32_first}
use jocko.Protocol.Codec.Carries.{Carries, Carries-then, Carries-map, transmit, transmit-Carries}
use jocko.Protocol.Codec.Fields.{
  Int16, Int32, Int64, FitsStr, IsMillis, IsMillis64, Absent, int16-Carries, int32-Carries,
  int64-Carries, string-Carries, nullable_string-Carries, bytes-Carries, duration-Carries,
  time-Carries, optional-Carries, array-Carries, sent-Carries,
}
use jocko.Protocol.Decoder.Values.{FitsString, FitsBytes}
use jocko.Protocol.Message.Produce.{
  Data, TopicData, ProduceRequest, ProducePartitionResponse, ProduceTopicResponse, ProduceResponse,
  encode_data, encode_topic_data, encode_produce_request, encode_produce_partition_response,
  encode_produce_topic_response, encode_produce_response, decode_data, decode_topic_data,
  decode_produce_request, decode_produce_partition_response, decode_produce_topic_response,
  decode_produce_response,
}

pub record IsValidData (r : Data) : Type 0 where
  pub partition : Int32 r.partition
  pub record_set : FitsBytes r.record_set

pub record IsValidTopicData (r : TopicData) : Type 0 where
  pub topic : FitsStr r.topic
  pub data_sets_length : length r.data_sets ≤ 131070
  pub data_sets : All IsValidData r.data_sets

pub record IsValidProduceRequest (r : ProduceRequest) : Type 0 where
  pub transactional_id : FitsString r.transactional_id
  pub transactional_id_absent : Absent (at_least 3 r.api_version) r.transactional_id none
  pub acks : Int16 r.acks
  pub timeout : IsMillis r.timeout
  pub topic_data_length : length r.topic_data ≤ 131070
  pub topic_data : All IsValidTopicData r.topic_data

pub record IsValidProducePartitionResponse (version : ℤ) (r : ProducePartitionResponse)
    : Type 0 where
  pub recent : at_least 2 version ≡ true
  pub partition : Int32 r.partition
  pub error_code : Int16 r.error_code
  pub base_offset : Int64 r.base_offset
  pub log_append_time : IsMillis64 r.log_append_time
  pub log_append_time_absent : Absent (at_least 2 version) r.log_append_time zero_time
  pub log_start_offset : Int64 r.log_start_offset
  pub log_start_offset_absent : Absent (at_least 5 version) r.log_start_offset (pos 0)

pub record IsValidProduceTopicResponse (version : ℤ) (r : ProduceTopicResponse) : Type 0 where
  pub topic : FitsStr r.topic
  pub partition_responses_length : length r.partition_responses ≤ 131070
  pub partition_responses : All (IsValidProducePartitionResponse version) r.partition_responses

pub record IsValidProduceResponse (r : ProduceResponse) : Type 0 where
  pub responses_length : length r.responses ≤ 131070
  pub responses : All (IsValidProduceTopicResponse r.api_version) r.responses
  pub throttle_time : IsMillis r.throttle_time
  pub throttle_time_absent : Absent (at_least 1 r.api_version) r.throttle_time (pos 0)

data_bytes : (r : Data) → 1 ≤ length (wires (encode_data r))
unfolding encode_data
data_bytes r = int32_first r.partition (drop 1 (encode_data r))

data-Carries : (r : Data) → IsValidData r → Carries decode_data (encode_data r) r
unfolding encode_data decode_data
data-Carries r h =
    Carries-then _ (int32-Carries r.partition h.partition)
      (Carries-map _ (bytes-Carries r.record_set h.record_set))

topic_data_bytes : (r : TopicData) → 1 ≤ length (wires (encode_topic_data r))
unfolding encode_topic_data
topic_data_bytes r = string_first r.topic (drop 1 (encode_topic_data r))

topic_data-Carries :
    (r : TopicData) → IsValidTopicData r → Carries decode_topic_data (encode_topic_data r) r
unfolding encode_topic_data decode_topic_data
topic_data-Carries r h = Carries-then _ (string-Carries r.topic h.topic) (
    Carries-map _ (
      array-Carries _ encode_data r.data_sets data_bytes h.data_sets_length
        (All-map IsValidData _ r.data_sets data-Carries h.data_sets)))

produce_request-Carries :
    (r : ProduceRequest)
    → IsValidProduceRequest r
    → Carries (decode_produce_request r.api_version) (encode_produce_request r) r
unfolding encode_produce_request decode_produce_request
produce_request-Carries r h =
    Carries-then _
      (optional-Carries (at_least 3 r.api_version) r.transactional_id none
        (nullable_string-Carries r.transactional_id h.transactional_id) h.transactional_id_absent)
      (Carries-then _ (int16-Carries r.acks h.acks) (
        Carries-then _ (duration-Carries r.timeout h.timeout) (
          Carries-map _ (
            array-Carries _ encode_topic_data r.topic_data topic_data_bytes h.topic_data_length
              (All-map IsValidTopicData _ r.topic_data topic_data-Carries h.topic_data)))))

produce_partition_response_bytes :
    (version : ℤ) (r : ProducePartitionResponse)
    → 1 ≤ length (wires (encode_produce_partition_response version r))
unfolding encode_produce_partition_response
produce_partition_response_bytes version r =
    int32_first r.partition (drop 1 (encode_produce_partition_response version r))

produce_partition_response-Carries :
    (version : ℤ) (r : ProducePartitionResponse)
    → IsValidProducePartitionResponse version r
    → Carries
        (decode_produce_partition_response version)
        (encode_produce_partition_response version r)
        r
unfolding encode_produce_partition_response decode_produce_partition_response
produce_partition_response-Carries version r h =
    Carries-then _ (int32-Carries r.partition h.partition) (
      Carries-then _ (int16-Carries r.error_code h.error_code) (
        Carries-then _
          (sent-Carries (at_least 2 version) h.recent (int64-Carries r.base_offset h.base_offset))
          (Carries-then _
            (optional-Carries (at_least 2 version) r.log_append_time zero_time
              (time-Carries r.log_append_time h.log_append_time) h.log_append_time_absent)
            (Carries-map _ (
              optional-Carries (at_least 5 version) r.log_start_offset (pos 0)
                (int64-Carries r.log_start_offset h.log_start_offset) h.log_start_offset_absent)))))

produce_topic_response_bytes :
    (version : ℤ) (r : ProduceTopicResponse)
    → 1 ≤ length (wires (encode_produce_topic_response version r))
unfolding encode_produce_topic_response
produce_topic_response_bytes version r =
    string_first r.topic (drop 1 (encode_produce_topic_response version r))

produce_topic_response-Carries :
    (version : ℤ) (r : ProduceTopicResponse)
    → IsValidProduceTopicResponse version r
    → Carries (decode_produce_topic_response version) (encode_produce_topic_response version r) r
unfolding encode_produce_topic_response decode_produce_topic_response
produce_topic_response-Carries version r h = Carries-then _ (string-Carries r.topic h.topic) (
    Carries-map _ (
      array-Carries _ (encode_produce_partition_response version) r.partition_responses
        (produce_partition_response_bytes version) h.partition_responses_length
        (All-map (IsValidProducePartitionResponse version) _ r.partition_responses
          (produce_partition_response-Carries version) h.partition_responses)))

produce_response-Carries :
    (r : ProduceResponse)
    → IsValidProduceResponse r
    → Carries (decode_produce_response r.api_version) (encode_produce_response r) r
unfolding encode_produce_response decode_produce_response
produce_response-Carries r h =
    Carries-then _
      (array-Carries _ (encode_produce_topic_response r.api_version) r.responses
        (produce_topic_response_bytes r.api_version) h.responses_length
        (All-map (IsValidProduceTopicResponse r.api_version) _ r.responses
          (produce_topic_response-Carries r.api_version) h.responses))
      (Carries-map _ (
        optional-Carries (at_least 1 r.api_version) r.throttle_time (pos 0)
          (duration-Carries r.throttle_time h.throttle_time) h.throttle_time_absent))

-- ProduceRequest, and ProduceResponse with partitions from version 2 on over the wire: Encode
-- succeeds on a message, and Decode at the version of the message reads it back from the bytes, to
-- the last of them, when the following holds: numbers are in the range of their types; strings have
-- at most 32767 bytes and the other lengths fit an int32; arrays of structures have at most 131070
-- items; the timeout or throttle time is a whole number of milliseconds that an int32 holds, and a
-- log append time one that an int64 holds, in the range of UnixNano; a field that the version does
-- not send is zero: in a request the transactional id below version 3, in a response the throttle
-- time below version 1 and the log start offset below 5. Decode reads the base offset of a response
-- at every version, and Encode sends it from version 2 on.
pub transmit-produce :
    (crc32 : List ℕ → ℕ) (req : ProduceRequest) (res : ProduceResponse)
    → IsValidProduceRequest req
    → IsValidProduceResponse res
    → (transmit crc32 (encode_produce_request req) (decode_produce_request req.api_version)
        ≡ ok (req, 0))
      × (transmit crc32 (encode_produce_response res) (decode_produce_response res.api_version)
          ≡ ok (res, 0))
transmit-produce crc32 req res hreq hres = (
  transmit-Carries crc32 _ _ req (produce_request-Carries req hreq),
  transmit-Carries crc32 _ _ res (produce_response-Carries res hres),
)
