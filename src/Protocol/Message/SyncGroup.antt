-- ===== src/Protocol/Message/SyncGroup.antt =====
-- protocol/sync_group_request.go and sync_group_response.go
pub mod RoundTrip
use jocko.Common.{
  ℕ, zero, ◌≤◌, ◌≡◌, sym, subst, Bool, true, false, Option, none, some, List, [], ◌∷◌, ◌++◌, length,
  All, Str, drop, ap,
}
use jocko.Common.Int.{ℤ, pos, negsuc}
use jocko.Common.Eq.{int_eq}
use jocko.Protocol.Encoder.{PutOp}
use jocko.Protocol.Decoder
use jocko.Protocol.Decoder.{Decode, ◌>>=◌, pure}
use jocko.Protocol.Decoder.Arrays.{array}
use jocko.Protocol.Codec.Arrays.{put_array}
use jocko.Protocol.Fields.{
  at_least, when, optional, put_duration, duration, put_time, time, zero_time, put_flag, or_nil,
}

pub record GroupAssignment : Type 0 where
  pub member_id : Str
  pub member_assignment : Option (List ℕ)

pub record SyncGroupRequest : Type 0 where
  pub api_version : ℤ
  pub group_id : Str
  pub generation_id : ℤ
  pub member_id : Str
  pub group_assignments : List GroupAssignment

pub record SyncGroupResponse : Type 0 where
  pub api_version : ℤ
  pub throttle_time : ℤ
  pub error_code : ℤ
  pub member_assignment : Option (List ℕ)

unfoldable pub encode_group_assignment : GroupAssignment → List PutOp
encode_group_assignment r = PutOp.string r.member_id ∷ PutOp.bytes r.member_assignment ∷ []

unfoldable pub encode_sync_group_request : SyncGroupRequest → List PutOp
unfolding encode_group_assignment
encode_sync_group_request r =
    PutOp.string r.group_id
    ∷ PutOp.int32 r.generation_id
    ∷ PutOp.string r.member_id
    ∷ put_array encode_group_assignment r.group_assignments

unfoldable pub encode_sync_group_response : SyncGroupResponse → List PutOp
encode_sync_group_response r =
    when (at_least 1 r.api_version) (put_duration r.throttle_time ∷ [])
    ++ (PutOp.int16 r.error_code ∷ PutOp.bytes r.member_assignment ∷ [])

unfoldable pub decode_group_assignment : Decode GroupAssignment
decode_group_assignment = do
  member_id ← Decoder.string
  member_assignment ← Decoder.bytes
  pure (record { member_id = member_id; member_assignment = member_assignment })

unfoldable pub decode_sync_group_request : ℤ → Decode SyncGroupRequest
unfolding decode_group_assignment
decode_sync_group_request version = do
  group_id ← Decoder.string
  generation_id ← Decoder.int32
  member_id ← Decoder.string
  group_assignments ← array decode_group_assignment
  pure (record {
    api_version = version;
    group_id = group_id;
    generation_id = generation_id;
    member_id = member_id;
    group_assignments = group_assignments;
  })

unfoldable pub decode_sync_group_response : ℤ → Decode SyncGroupResponse
decode_sync_group_response version = do
  throttle_time ← optional (at_least 1 version) duration (pos 0)
  error_code ← Decoder.int16
  member_assignment ← Decoder.bytes
  pure (record {
    api_version = version;
    throttle_time = throttle_time;
    error_code = error_code;
    member_assignment = member_assignment;
  })
