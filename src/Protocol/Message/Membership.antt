-- ===== src/Protocol/Message/Membership.antt =====
-- protocol/leave_group_request.go, leave_group_response.go and heartbeat_request.go
pub mod RoundTrip
use jocko.Common.{
  ℕ, zero, ◌≤◌, ◌≡◌, sym, subst, Bool, true, false, Option, none, some, List, [], ◌∷◌, ◌++◌, length,
  All, Str, drop, ap,
}
use jocko.Common.Int.{ℤ, pos, negsuc}
use jocko.Common.Eq.{int_eq}
use jocko.Protocol.Encoder.{PutOp}
use jocko.Protocol.Decoder
use jocko.Protocol.Decoder.{Decode, ◌>>=◌, pure}
use jocko.Protocol.Decoder.Arrays.{array}
use jocko.Protocol.Codec.Arrays.{put_array}
use jocko.Protocol.Fields.{
  at_least, when, optional, put_duration, duration, put_time, time, zero_time, put_flag, or_nil,
}

pub record LeaveGroupRequest : Type 0 where
  pub api_version : ℤ
  pub group_id : Str
  pub member_id : Str

pub record LeaveGroupResponse : Type 0 where
  pub api_version : ℤ
  pub throttle_time : ℤ
  pub error_code : ℤ

pub record HeartbeatRequest : Type 0 where
  pub api_version : ℤ
  pub group_id : Str
  pub group_generation_id : ℤ
  pub member_id : Str

unfoldable pub encode_leave_group_request : LeaveGroupRequest → List PutOp
encode_leave_group_request r = PutOp.string r.group_id ∷ PutOp.string r.member_id ∷ []

unfoldable pub encode_leave_group_response : LeaveGroupResponse → List PutOp
encode_leave_group_response r =
    when (at_least 1 r.api_version) (put_duration r.throttle_time ∷ [])
    ++ (PutOp.int16 r.error_code ∷ [])

unfoldable pub encode_heartbeat_request : HeartbeatRequest → List PutOp
encode_heartbeat_request r =
    PutOp.string r.group_id ∷ PutOp.int32 r.group_generation_id ∷ PutOp.string r.member_id ∷ []

unfoldable pub decode_leave_group_request : ℤ → Decode LeaveGroupRequest
decode_leave_group_request version = do
  group_id ← Decoder.string
  member_id ← Decoder.string
  pure (record { api_version = version; group_id = group_id; member_id = member_id })

unfoldable pub decode_leave_group_response : ℤ → Decode LeaveGroupResponse
decode_leave_group_response version = do
  throttle_time ← optional (at_least 1 version) duration (pos 0)
  error_code ← Decoder.int16
  pure (record { api_version = version; throttle_time = throttle_time; error_code = error_code })

unfoldable pub decode_heartbeat_request : ℤ → Decode HeartbeatRequest
decode_heartbeat_request version = do
  group_id ← Decoder.string
  group_generation_id ← Decoder.int32
  member_id ← Decoder.string
  pure (record {
    api_version = version;
    group_id = group_id;
    group_generation_id = group_generation_id;
    member_id = member_id;
  })
