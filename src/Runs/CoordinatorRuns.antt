-- ===== src/Runs/CoordinatorRuns.antt =====
-- The messages of protocol/ over the wire, at concrete messages.
use jocko.Common.{ℕ, List, [], ◌∷◌, some, codes, length, ◌≡◌, refl, arith}
use jocko.Common.Int.{pos, negsuc}
use jocko.Protocol.Outcome.{ok}
use jocko.Protocol.Codec.Carries.{transmit}
use jocko.Protocol.Message.FindCoordinator.{
  FindCoordinatorRequest, encode_find_coordinator_request, decode_find_coordinator_request,
  FindCoordinatorResponse, encode_find_coordinator_response, decode_find_coordinator_response,
}
use jocko.Protocol.Message.FindCoordinator.RoundTrip.{
  transmit-find_coordinator, IsValidFindCoordinatorRequest, IsValidFindCoordinatorResponse,
}
use jocko.Protocol.Message.Groups.{
  ListGroupsResponse, encode_list_groups_response, decode_list_groups_response,
  DescribeGroupsRequest, encode_describe_groups_request, decode_describe_groups_request,
}
use jocko.Protocol.Message.Groups.RoundTrip.{
  transmit-groups, IsValidListGroupsResponse, IsValidDescribeGroupsRequest,
}
use jocko.Protocol.Message.Offsets.{
  OffsetsRequest, encode_offsets_request, decode_offsets_request, OffsetFetchRequest,
  encode_offset_fetch_request, decode_offset_fetch_request,
}
use jocko.Protocol.Message.Offsets.RoundTrip.{
  transmit-offsets, IsValidOffsetsRequest, IsValidOffsetFetchRequest,
}

-- A checksum for the runs: the number of the bytes.
abbrev checksum : List ℕ → ℕ
checksum bs = length bs

abbrev find_coordinator_request : FindCoordinatorRequest
find_coordinator_request = record {
  api_version = pos 5;
  coordinator_key = codes "a";
  coordinator_type = pos 1;
}

find_coordinator_request-IsValid : IsValidFindCoordinatorRequest find_coordinator_request
find_coordinator_request-IsValid = record {
  coordinator_key = omega arith;
  coordinator_type = omega arith;
  coordinator_type_absent = tt;
}

abbrev find_coordinator_response : FindCoordinatorResponse
find_coordinator_response = record {
  api_version = pos 5;
  throttle_time = pos 5000000;
  error_code = pos 2;
  error_message = some (codes "b");
  node_id = pos 3;
  host = codes "a";
  port = pos 3;
}

find_coordinator_response-IsValid : IsValidFindCoordinatorResponse find_coordinator_response
find_coordinator_response-IsValid = record {
  throttle_time = (pos 5, omega arith, refl);
  throttle_time_absent = tt;
  error_code = omega arith;
  error_message = omega arith;
  error_message_absent = tt;
  node_id = omega arith;
  host = omega arith;
  port = omega arith;
}

transmit-find_coordinator_example :
    (transmit checksum
        (encode_find_coordinator_request find_coordinator_request)
        (decode_find_coordinator_request find_coordinator_request.api_version)
      ≡ ok (find_coordinator_request, 0))
    × (transmit checksum
          (encode_find_coordinator_response find_coordinator_response)
          (decode_find_coordinator_response find_coordinator_response.api_version)
        ≡ ok (find_coordinator_response, 0))
transmit-find_coordinator_example =
    transmit-find_coordinator checksum find_coordinator_request find_coordinator_response
      find_coordinator_request-IsValid find_coordinator_response-IsValid

abbrev list_groups_response : ListGroupsResponse
list_groups_response = record {
  api_version = pos 5;
  throttle_time = pos 5000000;
  error_code = pos 2;
  groups = record { group_id = codes "a"; protocol_type = codes "a" } ∷ [];
}

list_groups_response-IsValid : IsValidListGroupsResponse list_groups_response
list_groups_response-IsValid = record {
  throttle_time = (pos 5, omega arith, refl);
  throttle_time_absent = tt;
  error_code = omega arith;
  groups_length = omega arith;
  groups = (record { group_id = omega arith; protocol_type = omega arith }, tt);
}

abbrev describe_groups_request : DescribeGroupsRequest
describe_groups_request = record { api_version = pos 5; group_ids = codes "c" ∷ [] }

describe_groups_request-IsValid : IsValidDescribeGroupsRequest describe_groups_request
describe_groups_request-IsValid = record { group_ids = (omega arith, (omega arith, tt)) }

transmit-groups_example :
    (transmit checksum
        (encode_list_groups_response list_groups_response)
        (decode_list_groups_response list_groups_response.api_version)
      ≡ ok (list_groups_response, 0))
    × (transmit checksum
          (encode_describe_groups_request describe_groups_request)
          (decode_describe_groups_request describe_groups_request.api_version)
        ≡ ok (describe_groups_request, 0))
transmit-groups_example =
    transmit-groups checksum list_groups_response describe_groups_request
      list_groups_response-IsValid describe_groups_request-IsValid

abbrev offsets_request : OffsetsRequest
offsets_request = record {
  api_version = pos 5;
  replica_id = negsuc 0;
  isolation_level = pos 1;
  topics =
      record {
        topic = codes "a";
        partitions = record { partition = pos 3; timestamp = pos 4; max_num_offsets = pos 0 } ∷ [];
      }
      ∷ [];
}

offsets_request-IsValid : IsValidOffsetsRequest offsets_request
offsets_request-IsValid = record {
  replica_id = refl;
  isolation_level = omega arith;
  isolation_level_absent = tt;
  topics_length = omega arith;
  topics = (
    record {
      topic = omega arith;
      partitions_length = omega arith;
      partitions = (
        record {
          partition = omega arith;
          timestamp = omega arith;
          max_num_offsets = omega arith;
          max_num_offsets_absent = refl;
        },
        tt,
      );
    },
    tt,
  );
}

abbrev offset_fetch_request : OffsetFetchRequest
offset_fetch_request = record {
  api_version = pos 5;
  group_id = codes "a";
  topics = record { topic = codes "a"; partitions = pos 1 ∷ [] } ∷ [];
}

offset_fetch_request-IsValid : IsValidOffsetFetchRequest offset_fetch_request
offset_fetch_request-IsValid = record {
  group_id = omega arith;
  topics_length = omega arith;
  topics = (record { topic = omega arith; partitions = (omega arith, (omega arith, tt)) }, tt);
}

transmit-offsets_example :
    (transmit checksum
        (encode_offsets_request offsets_request)
        (decode_offsets_request offsets_request.api_version)
      ≡ ok (offsets_request, 0))
    × (transmit checksum
          (encode_offset_fetch_request offset_fetch_request)
          (decode_offset_fetch_request offset_fetch_request.api_version)
        ≡ ok (offset_fetch_request, 0))
transmit-offsets_example =
    transmit-offsets checksum offsets_request offset_fetch_request offsets_request-IsValid
      offset_fetch_request-IsValid
