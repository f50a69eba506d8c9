-- ===== src/Protocol/Message/Topics/RoundTrip.antt =====
-- The messages of Protocol/Message/Topics over the wire.
use jocko.Common.{ℕ, ◌≤◌, ◌≡◌, none, List, length, All, drop}
use jocko.Common.Int.{ℤ, pos}
use jocko.Protocol.Fields.{at_least}
use jocko.Protocol.Outcome.{ok}
use jocko.Protocol.Codec.{wires}
use jocko.Protocol.Codec.Arrays.{All-map, string_first}
use jocko.Protocol.Codec.Carries.{Carries, Carries-then, Carries-map, transmit, transmit-Carries}
use jocko.Protocol.Codec.Fields.{
  Int16, FitsStr, FitsStrs, IsMillis, Absent, int16-Carries, string-Carries,
  nullable_string-Carries, string_array-Carries, duration-Carries, optional-Carries, array-Carries,
}
use jocko.Protocol.Decoder.Values.{FitsString}
use jocko.Protocol.Message.Topics.{
  TopicErrorCode, CreateTopicsResponse, DeleteTopicsRequest, encode_topic_error_code,
  encode_create_topics_response, encode_delete_topics_request, decode_topic_error_code,
  decode_create_topics_response, decode_delete_topics_request,
}

pub record IsValidTopicErrorCode (version : ℤ) (r : TopicErrorCode) : Type 0 where
  pub topic : FitsStr r.topic
  pub error_code : Int16 r.error_code
  pub error_message : FitsString r.error_message
  pub error_message_absent : Absent (at_least 1 version) r.error_message none

pub record IsValidCreateTopicsResponse (r : CreateTopicsResponse) : Type 0 where
  pub throttle_time : IsMillis r.throttle_time
  pub throttle_time_absent : Absent (at_least 2 r.api_version) r.throttle_time (pos 0)
  pub topic_error_codes_length : length r.topic_error_codes ≤ 131070
  pub topic_error_codes : All (IsValidTopicErrorCode r.api_version) r.topic_error_codes

pub record IsValidDeleteTopicsRequest (r : DeleteTopicsRequest) : Type 0 where
  pub topics : FitsStrs r.topics
  pub timeout : IsMillis r.timeout

topic_error_code_bytes :
    (version : ℤ) (r : TopicErrorCode) → 1 ≤ length (wires (encode_topic_error_code version r))
unfolding encode_topic_error_code
topic_error_code_bytes version r = string_first r.topic (drop 1 (encode_topic_error_code version r))

topic_error_code-Carries :
    (version : ℤ) (r : TopicErrorCode)
    → IsValidTopicErrorCode version r
    → Carries (decode_topic_error_code version) (encode_topic_error_code version r) r
unfolding encode_topic_error_code decode_topic_error_code
topic_error_code-Carries version r h = Carries-then _ (string-Carries r.topic h.topic) (
    Carries-then _ (int16-Carries r.error_code h.error_code) (
      Carries-map _ (
        optional-Carries (at_least 1 version) r.error_message none
          (nullable_string-Carries r.error_message h.error_message) h.error_message_absent)))

create_topics_response-Carries :
    (r : CreateTopicsResponse)
    → IsValidCreateTopicsResponse r
    → Carries (decode_create_topics_response r.api_version) (encode_create_topics_response r) r
unfolding encode_create_topics_response decode_create_topics_response
create_topics_response-Carries r h =
    Carries-then _
      (optional-Carries (at_least 2 r.api_version) r.throttle_time (pos 0)
        (duration-Carries r.throttle_time h.throttle_time) h.throttle_time_absent)
      (Carries-map _ (
        array-Carries _ (encode_topic_error_code r.api_version) r.topic_error_codes
          (topic_error_code_bytes r.api_version) h.topic_error_codes_length
          (All-map (IsValidTopicErrorCode r.api_version) _ r.topic_error_codes
            (topic_error_code-Carries r.api_version) h.topic_error_codes)))

delete_topics_request-Carries :
    (r : DeleteTopicsRequest)
    → IsValidDeleteTopicsRequest r
    → Carries (decode_delete_topics_request r.api_version) (encode_delete_topics_request r) r
unfolding encode_delete_topics_request decode_delete_topics_request
delete_topics_request-Carries r h =
    Carries-then _ (string_array-Carries r.topics h.topics)
      (Carries-map _ (duration-Carries r.timeout h.timeout))

-- CreateTopicsResponse and DeleteTopicsRequest over the wire: Encode succeeds on a message, and
-- Decode at the version of the message reads it back from the bytes, to the last of them, when the
-- following holds: numbers are in the range of their types; strings have at most 32767 bytes and
-- the other lengths fit an int32; arrays of structures have at most 131070 items; the timeout or
-- throttle time is a whole number of milliseconds that an int32 holds; a field that the version
-- does not send is zero: in a response the error messages below version 1 and the throttle time
-- below 2.
pub transmit-topics :
    (crc32 : List ℕ → ℕ) (req : CreateTopicsResponse) (res : DeleteTopicsRequest)
    → IsValidCreateTopicsResponse req
    → IsValidDeleteTopicsRequest res
    → (transmit crc32
          (encode_create_topics_response req)
          (decode_create_topics_response req.api_version)
        ≡ ok (req, 0))
      × (transmit crc32
            (encode_delete_topics_request res)
            (decode_delete_topics_request res.api_version)
          ≡ ok (res, 0))
transmit-topics crc32 req res hreq hres = (
  transmit-Carries crc32 _ _ req (create_topics_response-Carries req hreq),
  transmit-Carries crc32 _ _ res (delete_topics_request-Carries res hres),
)
