-- ===== src/Protocol/Message/Topics.antt =====
-- protocol/create_topics_response.go and delete_topic_request.go
pub mod RoundTrip
use jocko.Common.{
  ℕ, zero, ◌≤◌, ◌≡◌, sym, subst, Bool, true, false, Option, none, some, List, [], ◌∷◌, ◌++◌, length,
  All, Str, drop, ap,
}
use jocko.Common.Int.{ℤ, pos, negsuc}
use jocko.Common.Eq.{int_eq}
use jocko.Protocol.Encoder.{PutOp}
use jocko.Protocol.Decoder
use jocko.Protocol.Decoder.{Decode, ◌>>=◌, pure}
use jocko.Protocol.Decoder.Arrays.{array}
use jocko.Protocol.Codec.Arrays.{put_array}
use jocko.Protocol.Fields.{
  at_least, when, optional, put_duration, duration, put_time, time, zero_time, put_flag, or_nil,
}

pub record TopicErrorCode : Type 0 where
  pub topic : Str
  pub error_code : ℤ
  pub error_message : Option Str

pub record CreateTopicsResponse : Type 0 where
  pub api_version : ℤ
  pub throttle_time : ℤ
  pub topic_error_codes : List TopicErrorCode

pub record DeleteTopicsRequest : Type 0 where
  pub api_version : ℤ
  pub topics : List Str
  pub timeout : ℤ

unfoldable pub encode_topic_error_code : ℤ → TopicErrorCode → List PutOp
encode_topic_error_code version r =
    PutOp.string r.topic
    ∷ PutOp.int16 r.error_code
    ∷ when (at_least 1 version) (PutOp.nullable_string r.error_message ∷ [])

unfoldable pub encode_create_topics_response : CreateTopicsResponse → List PutOp
unfolding encode_topic_error_code
encode_create_topics_response r =
    when (at_least 2 r.api_version) (put_duration r.throttle_time ∷ [])
    ++ (put_array (encode_topic_error_code r.api_version) r.topic_error_codes)

unfoldable pub encode_delete_topics_request : DeleteTopicsRequest → List PutOp
encode_delete_topics_request r = PutOp.string_array r.topics ∷ put_duration r.timeout ∷ []

unfoldable pub decode_topic_error_code : ℤ → Decode TopicErrorCode
decode_topic_error_code version = do
  topic ← Decoder.string
  error_code ← Decoder.int16
  error_message ← optional (at_least 1 version) Decoder.nullable_string none
  pure (record { topic = topic; error_code = error_code; error_message = error_message })

unfoldable pub decode_create_topics_response : ℤ → Decode CreateTopicsResponse
unfolding decode_topic_error_code
decode_create_topics_response version = do
  throttle_time ← optional (at_least 2 version) duration (pos 0)
  topic_error_codes ← array (decode_topic_error_code version)
  pure (record {
    api_version = version;
    throttle_time = throttle_time;
    topic_error_codes = topic_error_codes;
  })

unfoldable pub decode_delete_topics_request : ℤ → Decode DeleteTopicsRequest
decode_delete_topics_request version = do
  topics ← Decoder.string_array
  timeout ← duration
  pure (record { api_version = version; topics = topics; timeout = timeout })
