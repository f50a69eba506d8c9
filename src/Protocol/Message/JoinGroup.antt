-- ===== src/Protocol/Message/JoinGroup.antt =====
-- protocol/join_group_response.go
pub mod RoundTrip
use jocko.Common.{
  ℕ, zero, ◌≤◌, ◌≡◌, sym, subst, Bool, true, false, Option, none, some, List, [], ◌∷◌, ◌++◌, length,
  All, Str, drop, ap,
}
use jocko.Common.Int.{ℤ, pos, negsuc}
use jocko.Common.Eq.{int_eq}
use jocko.Protocol.Encoder.{PutOp}
use jocko.Protocol.Decoder
use jocko.Protocol.Decoder.{Decode, ◌>>=◌, pure}
use jocko.Protocol.Decoder.Arrays.{array}
use jocko.Protocol.Codec.Arrays.{put_array}
use jocko.Protocol.Fields.{
  at_least, when, optional, put_duration, duration, put_time, time, zero_time, put_flag, or_nil,
}

pub record ResponseMember : Type 0 where
  pub member_id : Str
  pub member_metadata : Option (List ℕ)

pub record JoinGroupResponse : Type 0 where
  pub api_version : ℤ
  pub throttle_time : ℤ
  pub error_code : ℤ
  pub generation_id : ℤ
  pub group_protocol : Str
  pub leader_id : Str
  pub member_id : Str
  pub members : List ResponseMember

unfoldable pub encode_response_member : ResponseMember → List PutOp
encode_response_member r = PutOp.string r.member_id ∷ PutOp.bytes r.member_metadata ∷ []

unfoldable pub encode_join_group_response : JoinGroupResponse → List PutOp
unfolding encode_response_member
encode_join_group_response r =
    when (at_least 1 r.api_version) (put_duration r.throttle_time ∷ [])
    ++ (PutOp.int16 r.error_code
        ∷ PutOp.int32 r.generation_id
        ∷ PutOp.string r.group_protocol
        ∷ PutOp.string r.leader_id
        ∷ PutOp.string r.member_id
        ∷ put_array encode_response_member r.members)

unfoldable pub decode_response_member : Decode ResponseMember
decode_response_member = do
  member_id ← Decoder.string
  member_metadata ← Decoder.bytes
  pure (record { member_id = member_id; member_metadata = member_metadata })

unfoldable pub decode_join_group_response : ℤ → Decode JoinGroupResponse
unfolding decode_response_member
decode_join_group_response version = do
  throttle_time ← optional (at_least 2 version) duration (pos 0)
  error_code ← Decoder.int16
  generation_id ← Decoder.int32
  group_protocol ← Decoder.string
  leader_id ← Decoder.string
  member_id ← Decoder.string
  members ← array decode_response_member
  pure (record {
    api_version = version;
    throttle_time = throttle_time;
    error_code = error_code;
    generation_id = generation_id;
    group_protocol = group_protocol;
    leader_id = leader_id;
    member_id = member_id;
    members = members;
  })
