-- ===== src/Protocol/Message/SyncGroup/RoundTrip.antt =====
-- The messages of Protocol/Message/SyncGroup over the wire.
use jocko.Common.{ℕ, ◌≤◌, ◌≡◌, List, length, All, drop}
use jocko.Common.Int.{pos}
use jocko.Protocol.Fields.{at_least}
use jocko.Protocol.Outcome.{ok}
use jocko.Protocol.Codec.{wires}
use jocko.Protocol.Codec.Arrays.{All-map, string_first}
use jocko.Protocol.Codec.Carries.{Carries, Carries-then, Carries-map, transmit, transmit-Carries}
use jocko.Protocol.Codec.Fields.{
  Int16, Int32, FitsStr, IsMillis, Absent, int16-Carries, int32-Carries, string-Carries,
  bytes-Carries, duration-Carries, optional-Carries, array-Carries,
}
use jocko.Protocol.Decoder.Values.{FitsBytes}
use jocko.Protocol.Message.SyncGroup.{
  GroupAssignment, SyncGroupRequest, SyncGroupResponse, encode_group_assignment,
  encode_sync_group_request, encode_sync_group_response, decode_group_assignment,
  decode_sync_group_request, decode_sync_group_response,
}

pub record IsValidGroupAssignment (r : GroupAssignment) : Type 0 where
  pub member_id : FitsStr r.member_id
  pub member_assignment : FitsBytes r.member_assignment

pub record IsValidSyncGroupRequest (r : SyncGroupRequest) : Type 0 where
  pub group_id : FitsStr r.group_id
  pub generation_id : Int32 r.generation_id
  pub member_id : FitsStr r.member_id
  pub group_assignments_length : length r.group_assignments ≤ 131070
  pub group_assignments : All IsValidGroupAssignment r.group_assignments

pub record IsValidSyncGroupResponse (r : SyncGroupResponse) : Type 0 where
  pub throttle_time : IsMillis r.throttle_time
  pub throttle_time_absent : Absent (at_least 1 r.api_version) r.throttle_time (pos 0)
  pub error_code : Int16 r.error_code
  pub member_assignment : FitsBytes r.member_assignment

group_assignment_bytes : (r : GroupAssignment) → 1 ≤ length (wires (encode_group_assignment r))
unfolding encode_group_assignment
group_assignment_bytes r = string_first r.member_id (drop 1 (encode_group_assignment r))

group_assignment-Carries :
    (r : GroupAssignment)
    → IsValidGroupAssignment r
    → Carries decode_group_assignment (encode_group_assignment r) r
unfolding encode_group_assignment decode_group_assignment
group_assignment-Carries r h =
    Carries-then _ (string-Carries r.member_id h.member_id)
      (Carries-map _ (bytes-Carries r.member_assignment h.member_assignment))

sync_group_request-Carries :
    (r : SyncGroupRequest)
    → IsValidSyncGroupRequest r
    → Carries (decode_sync_group_request r.api_version) (encode_sync_group_request r) r
unfolding encode_sync_group_request decode_sync_group_request
sync_group_request-Carries r h = Carries-then _ (string-Carries r.group_id h.group_id) (
    Carries-then _ (int32-Carries r.generation_id h.generation_id) (
      Carries-then _ (string-Carries r.member_id h.member_id) (
        Carries-map _ (
          array-Carries _ encode_group_assignment r.group_assignments group_assignment_bytes
            h.group_assignments_length
            (All-map IsValidGroupAssignment _ r.group_assignments group_assignment-Carries
              h.group_assignments)))))

sync_group_response-Carries :
    (r : SyncGroupResponse)
    → IsValidSyncGroupResponse r
    → Carries (decode_sync_group_response r.api_version) (encode_sync_group_response r) r
unfolding encode_sync_group_response decode_sync_group_response
sync_group_response-Carries r h =
    Carries-then _
      (optional-Carries (at_least 1 r.api_version) r.throttle_time (pos 0)
        (duration-Carries r.throttle_time h.throttle_time) h.throttle_time_absent)
      (Carries-then _ (int16-Carries r.error_code h.error_code)
        (Carries-map _ (bytes-Carries r.member_assignment h.member_assignment)))

-- SyncGroupRequest and SyncGroupResponse over the wire: Encode succeeds on a message, and Decode at
-- the version of the message reads it back from the bytes, to the last of them, when the following
-- holds: numbers are in the range of their types; strings have at most 32767 bytes and the other
-- lengths fit an int32; arrays of structures have at most 131070 items; the throttle time is a
-- whole number of milliseconds that an int32 holds; a field that the version does not send is zero:
-- the throttle time below version 1.
pub transmit-sync_group :
    (crc32 : List ℕ → ℕ) (req : SyncGroupRequest) (res : SyncGroupResponse)
    → IsValidSyncGroupRequest req
    → IsValidSyncGroupResponse res
    → (transmit crc32 (encode_sync_group_request req) (decode_sync_group_request req.api_version)
        ≡ ok (req, 0))
      × (transmit crc32
            (encode_sync_group_response res)
            (decode_sync_group_response res.api_version)
          ≡ ok (res, 0))
transmit-sync_group crc32 req res hreq hres = (
  transmit-Carries crc32 _ _ req (sync_group_request-Carries req hreq),
  transmit-Carries crc32 _ _ res (sync_group_response-Carries res hres),
)
