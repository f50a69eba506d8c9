-- ===== src/Protocol/Message/Membership/RoundTrip.antt =====
-- The messages of Protocol/Message/Membership over the wire.
use jocko.Common.{ℕ, ◌≡◌, List}
use jocko.Common.Int.{pos}
use jocko.Protocol.Fields.{at_least}
use jocko.Protocol.Outcome.{ok}
use jocko.Protocol.Codec.Carries.{Carries, Carries-then, Carries-map, transmit, transmit-Carries}
use jocko.Protocol.Codec.Fields.{
  Int16, Int32, FitsStr, IsMillis, Absent, int16-Carries, int32-Carries, string-Carries,
  duration-Carries, optional-Carries,
}
use jocko.Protocol.Message.Membership.{
  LeaveGroupRequest, LeaveGroupResponse, HeartbeatRequest, encode_leave_group_request,
  encode_leave_group_response, encode_heartbeat_request, decode_leave_group_request,
  decode_leave_group_response, decode_heartbeat_request,
}

pub record IsValidLeaveGroupRequest (r : LeaveGroupRequest) : Type 0 where
  pub group_id : FitsStr r.group_id
  pub member_id : FitsStr r.member_id

pub record IsValidLeaveGroupResponse (r : LeaveGroupResponse) : Type 0 where
  pub throttle_time : IsMillis r.throttle_time
  pub throttle_time_absent : Absent (at_least 1 r.api_version) r.throttle_time (pos 0)
  pub error_code : Int16 r.error_code

pub record IsValidHeartbeatRequest (r : HeartbeatRequest) : Type 0 where
  pub group_id : FitsStr r.group_id
  pub group_generation_id : Int32 r.group_generation_id
  pub member_id : FitsStr r.member_id

leave_group_request-Carries :
    (r : LeaveGroupRequest)
    → IsValidLeaveGroupRequest r
    → Carries (decode_leave_group_request r.api_version) (encode_leave_group_request r) r
unfolding encode_leave_group_request decode_leave_group_request
leave_group_request-Carries r h =
    Carries-then _ (string-Carries r.group_id h.group_id)
      (Carries-map _ (string-Carries r.member_id h.member_id))

leave_group_response-Carries :
    (r : LeaveGroupResponse)
    → IsValidLeaveGroupResponse r
    → Carries (decode_leave_group_response r.api_version) (encode_leave_group_response r) r
unfolding encode_leave_group_response decode_leave_group_response
leave_group_response-Carries r h =
    Carries-then _
      (optional-Carries (at_least 1 r.api_version) r.throttle_time (pos 0)
        (duration-Carries r.throttle_time h.throttle_time) h.throttle_time_absent)
      (Carries-map _ (int16-Carries r.error_code h.error_code))

heartbeat_request-Carries :
    (r : HeartbeatRequest)
    → IsValidHeartbeatRequest r
    → Carries (decode_heartbeat_request r.api_version) (encode_heartbeat_request r) r
unfolding encode_heartbeat_request decode_heartbeat_request
heartbeat_request-Carries r h = Carries-then _ (string-Carries r.group_id h.group_id) (
    Carries-then _ (int32-Carries r.group_generation_id h.group_generation_id)
      (Carries-map _ (string-Carries r.member_id h.member_id)))

-- LeaveGroupRequest, LeaveGroupResponse and HeartbeatRequest over the wire: Encode succeeds on a
-- message, and Decode at the version of the message reads it back from the bytes, to the last of
-- them, when the following holds: numbers are in the range of their types; strings have at most
-- 32767 bytes and the other lengths fit an int32; the throttle time is a whole number of
-- milliseconds that an int32 holds; a field that the version does not send is zero: the throttle
-- time below version 1.
pub transmit-membership :
    (crc32 : List ℕ → ℕ) (r1 : LeaveGroupRequest) (r2 : LeaveGroupResponse) (r3 : HeartbeatRequest)
    → IsValidLeaveGroupRequest r1
    → IsValidLeaveGroupResponse r2
    → IsValidHeartbeatRequest r3
    → (transmit crc32 (encode_leave_group_request r1) (decode_leave_group_request r1.api_version)
        ≡ ok (r1, 0))
      × (transmit crc32
            (encode_leave_group_response r2)
            (decode_leave_group_response r2.api_version)
          ≡ ok (r2, 0))
      × (transmit crc32 (encode_heartbeat_request r3) (decode_heartbeat_request r3.api_version)
          ≡ ok (r3, 0))
transmit-membership crc32 r1 r2 r3 hr1 hr2 hr3 = (
  transmit-Carries crc32 _ _ r1 (leave_group_request-Carries r1 hr1),
  transmit-Carries crc32 _ _ r2 (leave_group_response-Carries r2 hr2),
  transmit-Carries crc32 _ _ r3 (heartbeat_request-Carries r3 hr3),
)
