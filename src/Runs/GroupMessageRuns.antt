-- ===== src/Runs/GroupMessageRuns.antt =====
-- The messages of protocol/ over the wire, at concrete messages.
use jocko.Common.{ℕ, List, [], ◌∷◌, some, codes, length, ◌≡◌, refl, arith}
use jocko.Common.Int.{pos}
use jocko.Protocol.Outcome.{ok}
use jocko.Protocol.Codec.Carries.{transmit}
use jocko.Protocol.Message.JoinGroup.{
  JoinGroupResponse, encode_join_group_response, decode_join_group_response,
}
use jocko.Protocol.Message.JoinGroup.RoundTrip.{
  transmit-join_group_response, IsValidJoinGroupResponse,
}
use jocko.Protocol.Message.Membership.{
  LeaveGroupRequest, encode_leave_group_request, decode_leave_group_request, LeaveGroupResponse,
  encode_leave_group_response, decode_leave_group_response, HeartbeatRequest,
  encode_heartbeat_request, decode_heartbeat_request,
}
use jocko.Protocol.Message.Membership.RoundTrip.{
  transmit-membership, IsValidLeaveGroupRequest, IsValidLeaveGroupResponse, IsValidHeartbeatRequest,
}
use jocko.Protocol.Message.SyncGroup.{
  SyncGroupRequest, encode_sync_group_request, decode_sync_group_request, SyncGroupResponse,
  encode_sync_group_response, decode_sync_group_response,
}
use jocko.Protocol.Message.SyncGroup.RoundTrip.{
  transmit-sync_group, IsValidSyncGroupRequest, IsValidSyncGroupResponse,
}

-- A checksum for the runs: the number of the bytes.
abbrev checksum : List ℕ → ℕ
checksum bs = length bs

abbrev join_group_response : JoinGroupResponse
join_group_response = record {
  api_version = pos 5;
  throttle_time = pos 5000000;
  error_code = pos 2;
  generation_id = pos 3;
  group_protocol = codes "a";
  leader_id = codes "a";
  member_id = codes "a";
  members = record { member_id = codes "a"; member_metadata = some (1 ∷ 2 ∷ []) } ∷ [];
}

join_group_response-IsValid : IsValidJoinGroupResponse join_group_response
join_group_response-IsValid = record {
  version = refl;
  throttle_time = (pos 5, omega arith, refl);
  throttle_time_absent = tt;
  error_code = omega arith;
  generation_id = omega arith;
  group_protocol = omega arith;
  leader_id = omega arith;
  member_id = omega arith;
  members_length = omega arith;
  members = (record { member_id = omega arith; member_metadata = omega arith }, tt);
}

transmit-join_group_response_example :
    transmit checksum
      (encode_join_group_response join_group_response)
      (decode_join_group_response join_group_response.api_version)
    ≡ ok (join_group_response, 0)
transmit-join_group_response_example =
    transmit-join_group_response checksum join_group_response join_group_response-IsValid

abbrev leave_group_request : LeaveGroupRequest
leave_group_request = record { api_version = pos 5; group_id = codes "a"; member_id = codes "a" }

leave_group_request-IsValid : IsValidLeaveGroupRequest leave_group_request
leave_group_request-IsValid = record { group_id = omega arith; member_id = omega arith }

abbrev leave_group_response : LeaveGroupResponse
leave_group_response = record {
  api_version = pos 5;
  throttle_time = pos 5000000;
  error_code = pos 2;
}

leave_group_response-IsValid : IsValidLeaveGroupResponse leave_group_response
leave_group_response-IsValid = record {
  throttle_time = (pos 5, omega arith, refl);
  throttle_time_absent = tt;
  error_code = omega arith;
}

abbrev heartbeat_request : HeartbeatRequest
heartbeat_request = record {
  api_version = pos 5;
  group_id = codes "a";
  group_generation_id = pos 3;
  member_id = codes "a";
}

heartbeat_request-IsValid : IsValidHeartbeatRequest heartbeat_request
heartbeat_request-IsValid = record {
  group_id = omega arith;
  group_generation_id = omega arith;
  member_id = omega arith;
}

transmit-membership_example :
    (transmit checksum
        (encode_leave_group_request leave_group_request)
        (decode_leave_group_request leave_group_request.api_version)
      ≡ ok (leave_group_request, 0))
    × (transmit checksum
          (encode_leave_group_response leave_group_response)
          (decode_leave_group_response leave_group_response.api_version)
        ≡ ok (leave_group_response, 0))
    × (transmit checksum
          (encode_heartbeat_request heartbeat_request)
          (decode_heartbeat_request heartbeat_request.api_version)
        ≡ ok (heartbeat_request, 0))
transmit-membership_example =
    transmit-membership checksum leave_group_request leave_group_response heartbeat_request
      leave_group_request-IsValid leave_group_response-IsValid heartbeat_request-IsValid

abbrev sync_group_request : SyncGroupRequest
sync_group_request = record {
  api_version = pos 5;
  group_id = codes "a";
  generation_id = pos 3;
  member_id = codes "a";
  group_assignments = record { member_id = codes "a"; member_assignment = some (1 ∷ 2 ∷ []) } ∷ [];
}

sync_group_request-IsValid : IsValidSyncGroupRequest sync_group_request
sync_group_request-IsValid = record {
  group_id = omega arith;
  generation_id = omega arith;
  member_id = omega arith;
  group_assignments_length = omega arith;
  group_assignments = (record { member_id = omega arith; member_assignment = omega arith }, tt);
}

abbrev sync_group_response : SyncGroupResponse
sync_group_response = record {
  api_version = pos 5;
  throttle_time = pos 5000000;
  error_code = pos 2;
  member_assignment = some (1 ∷ 2 ∷ []);
}

sync_group_response-IsValid : IsValidSyncGroupResponse sync_group_response
sync_group_response-IsValid = record {
  throttle_time = (pos 5, omega arith, refl);
  throttle_time_absent = tt;
  error_code = omega arith;
  member_assignment = omega arith;
}

transmit-sync_group_example :
    (transmit checksum
        (encode_sync_group_request sync_group_request)
        (decode_sync_group_request sync_group_request.api_version)
      ≡ ok (sync_group_request, 0))
    × (transmit checksum
          (encode_sync_group_response sync_group_response)
          (decode_sync_group_response sync_group_response.api_version)
        ≡ ok (sync_group_response, 0))
transmit-sync_group_example =
    transmit-sync_group checksum sync_group_request sync_group_response sync_group_request-IsValid
      sync_group_response-IsValid
