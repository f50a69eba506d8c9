-- ===== src/Protocol/Message/Groups.antt =====
-- protocol/list_groups_response.go and describe_groups_request.go
pub mod RoundTrip
use jocko.Common.{
  ℕ, zero, ◌≤◌, ◌≡◌, sym, subst, Bool, true, false, Option, none, some, List, [], ◌∷◌, ◌++◌, length,
  All, Str, drop, ap,
}
use jocko.Common.Int.{ℤ, pos, negsuc}
use jocko.Common.Eq.{int_eq}
use jocko.Protocol.Encoder.{PutOp}
use jocko.Protocol.Decoder
use jocko.Protocol.Decoder.{Decode, ◌>>=◌, pure}
use jocko.Protocol.Decoder.Arrays.{array}
use jocko.Protocol.Codec.Arrays.{put_array}
use jocko.Protocol.Fields.{
  at_least, when, optional, put_duration, duration, put_time, time, zero_time, put_flag, or_nil,
}

pub record ListGroup : Type 0 where
  pub group_id : Str
  pub protocol_type : Str

pub record ListGroupsResponse : Type 0 where
  pub api_version : ℤ
  pub throttle_time : ℤ
  pub error_code : ℤ
  pub groups : List ListGroup

pub record DescribeGroupsRequest : Type 0 where
  pub api_version : ℤ
  pub group_ids : List Str

unfoldable pub encode_list_group : ListGroup → List PutOp
encode_list_group r = PutOp.string r.group_id ∷ PutOp.string r.protocol_type ∷ []

unfoldable pub encode_list_groups_response : ListGroupsResponse → List PutOp
unfolding encode_list_group
encode_list_groups_response r =
    when (at_least 1 r.api_version) (put_duration r.throttle_time ∷ [])
    ++ (PutOp.int16 r.error_code ∷ put_array encode_list_group r.groups)

unfoldable pub encode_describe_groups_request : DescribeGroupsRequest → List PutOp
encode_describe_groups_request r = PutOp.string_array r.group_ids ∷ []

unfoldable pub decode_list_group : Decode ListGroup
decode_list_group = do
  group_id ← Decoder.string
  protocol_type ← Decoder.string
  pure (record { group_id = group_id; protocol_type = protocol_type })

unfoldable pub decode_list_groups_response : ℤ → Decode ListGroupsResponse
unfolding decode_list_group
decode_list_groups_response version = do
  throttle_time ← optional (at_least 1 version) duration (pos 0)
  error_code ← Decoder.int16
  groups ← array decode_list_group
  pure (record {
    api_version = version;
    throttle_time = throttle_time;
    error_code = error_code;
    groups = groups;
  })

unfoldable pub decode_describe_groups_request : ℤ → Decode DescribeGroupsRequest
decode_describe_groups_request version = do
  group_ids ← Decoder.string_array
  pure (record { api_version = version; group_ids = group_ids })
