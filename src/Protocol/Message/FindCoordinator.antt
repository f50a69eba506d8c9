-- ===== src/Protocol/Message/FindCoordinator.antt =====
-- protocol/find_coordinator_request.go and find_coordinator_response.go; the fields of the
-- coordinator stand in the response
pub mod RoundTrip
use jocko.Common.{
  ℕ, zero, ◌≤◌, ◌≡◌, sym, subst, Bool, true, false, Option, none, some, List, [], ◌∷◌, ◌++◌, length,
  All, Str, drop, ap,
}
use jocko.Common.Int.{ℤ, pos, negsuc}
use jocko.Common.Eq.{int_eq}
use jocko.Protocol.Encoder.{PutOp}
use jocko.Protocol.Decoder
use jocko.Protocol.Decoder.{Decode, ◌>>=◌, pure}
use jocko.Protocol.Decoder.Arrays.{array}
use jocko.Protocol.Codec.Arrays.{put_array}
use jocko.Protocol.Fields.{
  at_least, when, optional, put_duration, duration, put_time, time, zero_time, put_flag, or_nil,
}

pub record FindCoordinatorRequest : Type 0 where
  pub api_version : ℤ
  pub coordinator_key : Str
  pub coordinator_type : ℤ

pub record FindCoordinatorResponse : Type 0 where
  pub api_version : ℤ
  pub throttle_time : ℤ
  pub error_code : ℤ
  pub error_message : Option Str
  pub node_id : ℤ
  pub host : Str
  pub port : ℤ

unfoldable pub encode_find_coordinator_request : FindCoordinatorRequest → List PutOp
encode_find_coordinator_request r =
    PutOp.string r.coordinator_key
    ∷ when (at_least 1 r.api_version) (PutOp.int8 r.coordinator_type ∷ [])

unfoldable pub encode_find_coordinator_response : FindCoordinatorResponse → List PutOp
encode_find_coordinator_response r =
    when (at_least 1 r.api_version) (put_duration r.throttle_time ∷ [])
    ++ (PutOp.int16 r.error_code
          ∷ when (at_least 1 r.api_version) (PutOp.nullable_string r.error_message ∷ [])
        ++ (PutOp.int32 r.node_id ∷ PutOp.string r.host ∷ PutOp.int32 r.port ∷ []))

unfoldable pub decode_find_coordinator_request : ℤ → Decode FindCoordinatorRequest
decode_find_coordinator_request version = do
  coordinator_key ← Decoder.string
  coordinator_type ← optional (at_least 1 version) Decoder.int8 (pos 0)
  pure (record {
    api_version = version;
    coordinator_key = coordinator_key;
    coordinator_type = coordinator_type;
  })

unfoldable pub decode_find_coordinator_response : ℤ → Decode FindCoordinatorResponse
decode_find_coordinator_response version = do
  throttle_time ← optional (at_least 1 version) duration (pos 0)
  error_code ← Decoder.int16
  error_message ← optional (at_least 1 version) Decoder.nullable_string none
  node_id ← Decoder.int32
  host ← Decoder.string
  port ← Decoder.int32
  pure (record {
    api_version = version;
    throttle_time = throttle_time;
    error_code = error_code;
    error_message = error_message;
    node_id = node_id;
    host = host;
    port = port;
  })
