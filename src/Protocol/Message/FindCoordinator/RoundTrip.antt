-- ===== src/Protocol/Message/FindCoordinator/RoundTrip.antt =====
-- The messages of Protocol/Message/FindCoordinator over the wire.
use jocko.Common.{ℕ, ◌≡◌, none, List}
use jocko.Common.Int.{pos}
use jocko.Protocol.Fields.{at_least}
use jocko.Protocol.Outcome.{ok}
use jocko.Protocol.Codec.Carries.{Carries, Carries-then, Carries-map, transmit, transmit-Carries}
use jocko.Protocol.Codec.Fields.{
  Int8, Int16, Int32, FitsStr, IsMillis, Absent, int8-Carries, int16-Carries, int32-Carries,
  string-Carries, nullable_string-Carries, duration-Carries, optional-Carries,
}
use jocko.Protocol.Decoder.Values.{FitsString}
use jocko.Protocol.Message.FindCoordinator.{
  FindCoordinatorRequest, FindCoordinatorResponse, encode_find_coordinator_request,
  encode_find_coordinator_response, decode_find_coordinator_request,
  decode_find_coordinator_response,
}

pub record IsValidFindCoordinatorRequest (r : FindCoordinatorRequest) : Type 0 where
  pub coordinator_key : FitsStr r.coordinator_key
  pub coordinator_type : Int8 r.coordinator_type
  pub coordinator_type_absent : Absent (at_least 1 r.api_version) r.coordinator_type (pos 0)

pub record IsValidFindCoordinatorResponse (r : FindCoordinatorResponse) : Type 0 where
  pub throttle_time : IsMillis r.throttle_time
  pub throttle_time_absent : Absent (at_least 1 r.api_version) r.throttle_time (pos 0)
  pub error_code : Int16 r.error_code
  pub error_message : FitsString r.error_message
  pub error_message_absent : Absent (at_least 1 r.api_version) r.error_message none
  pub node_id : Int32 r.node_id
  pub host : FitsStr r.host
  pub port : Int32 r.port

find_coordinator_request-Carries :
    (r : FindCoordinatorRequest)
    → IsValidFindCoordinatorRequest r
    → Carries (decode_find_coordinator_request r.api_version) (encode_find_coordinator_request r) r
unfolding encode_find_coordinator_request decode_find_coordinator_request
find_coordinator_request-Carries r h =
    Carries-then _ (string-Carries r.coordinator_key h.coordinator_key) (
      Carries-map _ (
        optional-Carries (at_least 1 r.api_version) r.coordinator_type (pos 0)
          (int8-Carries r.coordinator_type h.coordinator_type) h.coordinator_type_absent))

find_coordinator_response-Carries :
    (r : FindCoordinatorResponse)
    → IsValidFindCoordinatorResponse r
    → Carries
        (decode_find_coordinator_response r.api_version)
        (encode_find_coordinator_response r)
        r
unfolding encode_find_coordinator_response decode_find_coordinator_response
find_coordinator_response-Carries r h =
    Carries-then _
      (optional-Carries (at_least 1 r.api_version) r.throttle_time (pos 0)
        (duration-Carries r.throttle_time h.throttle_time) h.throttle_time_absent)
      (Carries-then _ (int16-Carries r.error_code h.error_code) (
        Carries-then _
          (optional-Carries (at_least 1 r.api_version) r.error_message none
            (nullable_string-Carries r.error_message h.error_message) h.error_message_absent)
          (Carries-then _ (int32-Carries r.node_id h.node_id) (
            Carries-then _ (string-Carries r.host h.host)
              (Carries-map _ (int32-Carries r.port h.port))))))

-- FindCoordinatorRequest and FindCoordinatorResponse over the wire: Encode succeeds on a message,
-- and Decode at the version of the message reads it back from the bytes, to the last of them, when
-- the following holds: numbers are in the range of their types; strings have at most 32767 bytes
-- and the other lengths fit an int32; the throttle time is a whole number of milliseconds that an
-- int32 holds; a field that the version does not send is zero: below version 1 the coordinator
-- type, the throttle time and the error message.
pub transmit-find_coordinator :
    (crc32 : List ℕ → ℕ) (req : FindCoordinatorRequest) (res : FindCoordinatorResponse)
    → IsValidFindCoordinatorRequest req
    → IsValidFindCoordinatorResponse res
    → (transmit crc32
          (encode_find_coordinator_request req)
          (decode_find_coordinator_request req.api_version)
        ≡ ok (req, 0))
      × (transmit crc32
            (encode_find_coordinator_response res)
            (decode_find_coordinator_response res.api_version)
          ≡ ok (res, 0))
transmit-find_coordinator crc32 req res hreq hres = (
  transmit-Carries crc32 _ _ req (find_coordinator_request-Carries req hreq),
  transmit-Carries crc32 _ _ res (find_coordinator_response-Carries res hres),
)
