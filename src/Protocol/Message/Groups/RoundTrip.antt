-- ===== src/Protocol/Message/Groups/RoundTrip.antt =====
-- The messages of Protocol/Message/Groups over the wire.
use jocko.Common.{ℕ, ◌≤◌, ◌≡◌, List, length, All, drop}
use jocko.Common.Int.{pos}
use jocko.Protocol.Fields.{at_least}
use jocko.Protocol.Outcome.{ok}
use jocko.Protocol.Codec.{wires}
use jocko.Protocol.Codec.Arrays.{All-map, string_first}
use jocko.Protocol.Codec.Carries.{Carries, Carries-then, Carries-map, transmit, transmit-Carries}
use jocko.Protocol.Codec.Fields.{
  Int16, FitsStr, FitsStrs, IsMillis, Absent, int16-Carries, string-Carries, string_array-Carries,
  duration-Carries, optional-Carries, array-Carries,
}
use jocko.Protocol.Message.Groups.{
  ListGroup, ListGroupsResponse, DescribeGroupsRequest, encode_list_group,
  encode_list_groups_response, encode_describe_groups_request, decode_list_group,
  decode_list_groups_response, decode_describe_groups_request,
}

pub record IsValidListGroup (r : ListGroup) : Type 0 where
  pub group_id : FitsStr r.group_id
  pub protocol_type : FitsStr r.protocol_type

pub record IsValidListGroupsResponse (r : ListGroupsResponse) : Type 0 where
  pub throttle_time : IsMillis r.throttle_time
  pub throttle_time_absent : Absent (at_least 1 r.api_version) r.throttle_time (pos 0)
  pub error_code : Int16 r.error_code
  pub groups_length : length r.groups ≤ 131070
  pub groups : All IsValidListGroup r.groups

pub record IsValidDescribeGroupsRequest (r : DescribeGroupsRequest) : Type 0 where
  pub group_ids : FitsStrs r.group_ids

list_group_bytes : (r : ListGroup) → 1 ≤ length (wires (encode_list_group r))
unfolding encode_list_group
list_group_bytes r = string_first r.group_id (drop 1 (encode_list_group r))

list_group-Carries :
    (r : ListGroup) → IsValidListGroup r → Carries decode_list_group (encode_list_group r) r
unfolding encode_list_group decode_list_group
list_group-Carries r h =
    Carries-then _ (string-Carries r.group_id h.group_id)
      (Carries-map _ (string-Carries r.protocol_type h.protocol_type))

list_groups_response-Carries :
    (r : ListGroupsResponse)
    → IsValidListGroupsResponse r
    → Carries (decode_list_groups_response r.api_version) (encode_list_groups_response r) r
unfolding encode_list_groups_response decode_list_groups_response
list_groups_response-Carries r h =
    Carries-then _
      (optional-Carries (at_least 1 r.api_version) r.throttle_time (pos 0)
        (duration-Carries r.throttle_time h.throttle_time) h.throttle_time_absent)
      (Carries-then _ (int16-Carries r.error_code h.error_code) (
        Carries-map _ (
          array-Carries _ encode_list_group r.groups list_group_bytes h.groups_length
            (All-map IsValidListGroup _ r.groups list_group-Carries h.groups))))

describe_groups_request-Carries :
    (r : DescribeGroupsRequest)
    → IsValidDescribeGroupsRequest r
    → Carries (decode_describe_groups_request r.api_version) (encode_describe_groups_request r) r
unfolding encode_describe_groups_request decode_describe_groups_request
describe_groups_request-Carries r h = Carries-map _ (string_array-Carries r.group_ids h.group_ids)

-- ListGroupsResponse and DescribeGroupsRequest over the wire: Encode succeeds on a message, and
-- Decode at the version of the message reads it back from the bytes, to the last of them, when the
-- following holds: numbers are in the range of their types; strings have at most 32767 bytes and
-- the other lengths fit an int32; arrays of structures have at most 131070 items; the throttle time
-- is a whole number of milliseconds that an int32 holds; a field that the version does not send is
-- zero: the throttle time below version 1.
pub transmit-groups :
    (crc32 : List ℕ → ℕ) (req : ListGroupsResponse) (res : DescribeGroupsRequest)
    → IsValidListGroupsResponse req
    → IsValidDescribeGroupsRequest res
    → (transmit crc32
          (encode_list_groups_response req)
          (decode_list_groups_response req.api_version)
        ≡ ok (req, 0))
      × (transmit crc32
            (encode_describe_groups_request res)
            (decode_describe_groups_request res.api_version)
          ≡ ok (res, 0))
transmit-groups crc32 req res hreq hres = (
  transmit-Carries crc32 _ _ req (list_groups_response-Carries req hreq),
  transmit-Carries crc32 _ _ res (describe_groups_request-Carries res hres),
)
