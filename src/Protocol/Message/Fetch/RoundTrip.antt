-- ===== src/Protocol/Message/Fetch/RoundTrip.antt =====
-- The messages of Protocol/Message/Fetch over the wire.
use jocko.Common.{ℕ, ◌≤◌, ◌≡◌, sym, subst, List, [], ◌∷◌, length, All, drop}
use jocko.Common.Int.{ℤ, pos}
use jocko.Protocol.Encoder.{PutOp}
use jocko.Protocol.Decoder
use jocko.Protocol.Decoder.{Decode, ◌>>=◌, pure}
use jocko.Protocol.Fields.{at_least}
use jocko.Protocol.Outcome.{ok}
use jocko.Protocol.Codec.{wires}
use jocko.Protocol.Codec.Arrays.{All-map, string_first, int32_first}
use jocko.Protocol.Codec.Carries.{Carries, Carries-then, Carries-map, transmit, transmit-Carries}
use jocko.Protocol.Codec.Fields.{
  Int8, Int16, Int32, Int64, FitsStr, IsMillis, Absent, int8-Carries, int16-Carries, int32-Carries,
  int64-Carries, string-Carries, bytes-Carries, duration-Carries, optional-Carries, array-Carries,
  int64_first,
}
use jocko.Protocol.Decoder.Values.{FitsBytes}
use jocko.Protocol.Message.Fetch.{
  FetchPartition, FetchTopic, FetchRequest, AbortedTransaction, FetchPartitionResponse,
  FetchTopicResponse, FetchResponse, encode_fetch_partition, encode_fetch_topic,
  encode_fetch_request, encode_aborted_transaction, encode_fetch_partition_response,
  encode_fetch_topic_response, encode_fetch_response, decode_fetch_partition, decode_fetch_topic,
  decode_fetch_request, decode_aborted_transaction, decode_fetch_partition_response,
  decode_fetch_topic_response, decode_fetch_response,
}
use jocko.Protocol.Message.Fetch.{client_replica}

pub record IsValidFetchPartition (r : FetchPartition) : Type 0 where
  pub partition : Int32 r.partition
  pub fetch_offset : Int64 r.fetch_offset
  pub max_bytes : Int32 r.max_bytes

pub record IsValidFetchTopic (r : FetchTopic) : Type 0 where
  pub topic : FitsStr r.topic
  pub partitions_length : length r.partitions ≤ 131070
  pub partitions : All IsValidFetchPartition r.partitions

pub record IsValidFetchRequest (r : FetchRequest) : Type 0 where
  pub replica_id : Int32 r.replica_id × (client_replica r.replica_id ≡ r.replica_id)
  pub max_wait_time : IsMillis r.max_wait_time
  pub min_bytes : Int32 r.min_bytes
  pub max_bytes : Int32 r.max_bytes
  pub max_bytes_absent : Absent (at_least 3 r.api_version) r.max_bytes (pos 0)
  pub isolation_level : Int8 r.isolation_level
  pub isolation_level_absent : Absent (at_least 4 r.api_version) r.isolation_level (pos 0)
  pub topics_length : length r.topics ≤ 131070
  pub topics : All IsValidFetchTopic r.topics

pub record IsValidAbortedTransaction (r : AbortedTransaction) : Type 0 where
  pub producer_id : Int64 r.producer_id
  pub first_offset : Int64 r.first_offset

pub record IsValidFetchPartitionResponse (version : ℤ) (r : FetchPartitionResponse) : Type 0 where
  pub partition : Int32 r.partition
  pub error_code : Int16 r.error_code
  pub high_watermark : Int64 r.high_watermark
  pub last_stable_offset : Int64 r.last_stable_offset
  pub last_stable_offset_absent : Absent (at_least 4 version) r.last_stable_offset (pos 0)
  pub aborted_transactions_length : length r.aborted_transactions ≤ 131070
  pub aborted_transactions : All IsValidAbortedTransaction r.aborted_transactions
  pub aborted_transactions_absent : Absent (at_least 4 version) r.aborted_transactions []
  pub record_set : FitsBytes r.record_set

pub record IsValidFetchTopicResponse (version : ℤ) (r : FetchTopicResponse) : Type 0 where
  pub topic : FitsStr r.topic
  pub partition_responses_length : length r.partition_responses ≤ 131070
  pub partition_responses : All (IsValidFetchPartitionResponse version) r.partition_responses

pub record IsValidFetchResponse (r : FetchResponse) : Type 0 where
  pub throttle_time : IsMillis r.throttle_time
  pub throttle_time_absent : Absent (at_least 1 r.api_version) r.throttle_time (pos 0)
  pub responses_length : length r.responses ≤ 131070
  pub responses : All (IsValidFetchTopicResponse r.api_version) r.responses

fetch_partition_bytes : (r : FetchPartition) → 1 ≤ length (wires (encode_fetch_partition r))
unfolding encode_fetch_partition
fetch_partition_bytes r = int32_first r.partition (drop 1 (encode_fetch_partition r))

fetch_partition-Carries :
    (r : FetchPartition)
    → IsValidFetchPartition r
    → Carries decode_fetch_partition (encode_fetch_partition r) r
unfolding encode_fetch_partition decode_fetch_partition
fetch_partition-Carries r h = Carries-then _ (int32-Carries r.partition h.partition) (
    Carries-then _ (int64-Carries r.fetch_offset h.fetch_offset)
      (Carries-map _ (int32-Carries r.max_bytes h.max_bytes)))

fetch_topic_bytes : (r : FetchTopic) → 1 ≤ length (wires (encode_fetch_topic r))
unfolding encode_fetch_topic
fetch_topic_bytes r = string_first r.topic (drop 1 (encode_fetch_topic r))

fetch_topic-Carries :
    (r : FetchTopic) → IsValidFetchTopic r → Carries decode_fetch_topic (encode_fetch_topic r) r
unfolding encode_fetch_topic decode_fetch_topic
fetch_topic-Carries r h = Carries-then _ (string-Carries r.topic h.topic) (
    Carries-map _ (
      array-Carries _ encode_fetch_partition r.partitions fetch_partition_bytes h.partitions_length
        (All-map IsValidFetchPartition _ r.partitions fetch_partition-Carries h.partitions)))

fetch_request-Carries :
    (r : FetchRequest)
    → IsValidFetchRequest r
    → Carries (decode_fetch_request r.api_version) (encode_fetch_request r) r
unfolding encode_fetch_request decode_fetch_request
fetch_request-Carries r h =
    Carries-then _
      (subst (λ z. Carries Decoder.int32 (PutOp.int32 z ∷ []) r.replica_id) (sym h.replica_id.1)
        (int32-Carries r.replica_id h.replica_id.0))
      (Carries-then _ (duration-Carries r.max_wait_time h.max_wait_time) (
        Carries-then _ (int32-Carries r.min_bytes h.min_bytes) (
          Carries-then _
            (optional-Carries (at_least 3 r.api_version) r.max_bytes (pos 0)
              (int32-Carries r.max_bytes h.max_bytes) h.max_bytes_absent)
            (Carries-then _
              (optional-Carries (at_least 4 r.api_version) r.isolation_level (pos 0)
                (int8-Carries r.isolation_level h.isolation_level) h.isolation_level_absent)
              (Carries-map _ (
                array-Carries _ encode_fetch_topic r.topics fetch_topic_bytes h.topics_length
                  (All-map IsValidFetchTopic _ r.topics fetch_topic-Carries h.topics)))))))

aborted_transaction_bytes :
    (r : AbortedTransaction) → 1 ≤ length (wires (encode_aborted_transaction r))
unfolding encode_aborted_transaction
aborted_transaction_bytes r = int64_first r.producer_id (drop 1 (encode_aborted_transaction r))

aborted_transaction-Carries :
    (r : AbortedTransaction)
    → IsValidAbortedTransaction r
    → Carries decode_aborted_transaction (encode_aborted_transaction r) r
unfolding encode_aborted_transaction decode_aborted_transaction
aborted_transaction-Carries r h =
    Carries-then _ (int64-Carries r.producer_id h.producer_id)
      (Carries-map _ (int64-Carries r.first_offset h.first_offset))

fetch_partition_response_bytes :
    (version : ℤ) (r : FetchPartitionResponse)
    → 1 ≤ length (wires (encode_fetch_partition_response version r))
unfolding encode_fetch_partition_response
fetch_partition_response_bytes version r =
    int32_first r.partition (drop 1 (encode_fetch_partition_response version r))

fetch_partition_response-Carries :
    (version : ℤ) (r : FetchPartitionResponse)
    → IsValidFetchPartitionResponse version r
    → Carries
        (decode_fetch_partition_response version)
        (encode_fetch_partition_response version r)
        r
unfolding encode_fetch_partition_response decode_fetch_partition_response
fetch_partition_response-Carries version r h =
    Carries-then _ (int32-Carries r.partition h.partition) (
      Carries-then _ (int16-Carries r.error_code h.error_code) (
        Carries-then _ (int64-Carries r.high_watermark h.high_watermark) (
          Carries-then _
            (optional-Carries (at_least 4 version) r.last_stable_offset (pos 0)
              (int64-Carries r.last_stable_offset h.last_stable_offset) h.last_stable_offset_absent)
            (Carries-then _
              (optional-Carries (at_least 4 version) r.aborted_transactions []
                (array-Carries _ encode_aborted_transaction r.aborted_transactions
                  aborted_transaction_bytes h.aborted_transactions_length
                  (All-map IsValidAbortedTransaction _ r.aborted_transactions
                    aborted_transaction-Carries h.aborted_transactions))
                h.aborted_transactions_absent)
              (Carries-map _ (bytes-Carries r.record_set h.record_set))))))

fetch_topic_response_bytes :
    (version : ℤ) (r : FetchTopicResponse)
    → 1 ≤ length (wires (encode_fetch_topic_response version r))
unfolding encode_fetch_topic_response
fetch_topic_response_bytes version r =
    string_first r.topic (drop 1 (encode_fetch_topic_response version r))

fetch_topic_response-Carries :
    (version : ℤ) (r : FetchTopicResponse)
    → IsValidFetchTopicResponse version r
    → Carries (decode_fetch_topic_response version) (encode_fetch_topic_response version r) r
unfolding encode_fetch_topic_response decode_fetch_topic_response
fetch_topic_response-Carries version r h = Carries-then _ (string-Carries r.topic h.topic) (
    Carries-map _ (
      array-Carries _ (encode_fetch_partition_response version) r.partition_responses
        (fetch_partition_response_bytes version) h.partition_responses_length
        (All-map (IsValidFetchPartitionResponse version) _ r.partition_responses
          (fetch_partition_response-Carries version) h.partition_responses)))

fetch_response-Carries :
    (r : FetchResponse)
    → IsValidFetchResponse r
    → Carries (decode_fetch_response r.api_version) (encode_fetch_response r) r
unfolding encode_fetch_response decode_fetch_response
fetch_response-Carries r h =
    Carries-then _
      (optional-Carries (at_least 1 r.api_version) r.throttle_time (pos 0)
        (duration-Carries r.throttle_time h.throttle_time) h.throttle_time_absent)
      (Carries-map _ (
        array-Carries _ (encode_fetch_topic_response r.api_version) r.responses
          (fetch_topic_response_bytes r.api_version) h.responses_length
          (All-map (IsValidFetchTopicResponse r.api_version) _ r.responses
            (fetch_topic_response-Carries r.api_version) h.responses)))

-- FetchRequest, of a replica other than 0, and FetchResponse over the wire: Encode succeeds on a
-- message, and Decode at the version of the message reads it back from the bytes, to the last of
-- them, when the following holds: numbers are in the range of their types; strings have at most
-- 32767 bytes and the other lengths fit an int32; arrays of structures have at most 131070 items;
-- the wait or throttle time is a whole number of milliseconds that an int32 holds; a field that the
-- version does not send is zero: in a request MaxBytes below version 3 and the isolation level
-- below 4, in a response the throttle time below version 1, the last stable offset and the aborted
-- transactions below 4.
pub transmit-fetch :
    (crc32 : List ℕ → ℕ) (req : FetchRequest) (res : FetchResponse)
    → IsValidFetchRequest req
    → IsValidFetchResponse res
    → (transmit crc32 (encode_fetch_request req) (decode_fetch_request req.api_version)
        ≡ ok (req, 0))
      × (transmit crc32 (encode_fetch_response res) (decode_fetch_response res.api_version)
          ≡ ok (res, 0))
transmit-fetch crc32 req res hreq hres = (
  transmit-Carries crc32 _ _ req (fetch_request-Carries req hreq),
  transmit-Carries crc32 _ _ res (fetch_response-Carries res hres),
)
