-- ===== src/Protocol/Message/JoinGroup/RoundTrip.antt =====
-- The messages of Protocol/Message/JoinGroup over the wire.
use jocko.Common.{ℕ, ◌≤◌, ◌≡◌, sym, subst, List, [], ◌∷◌, length, All, drop}
use jocko.Common.Int.{pos}
use jocko.Protocol.Fields.{at_least, when, optional, put_duration, duration}
use jocko.Protocol.Outcome.{ok}
use jocko.Protocol.Codec.{wires}
use jocko.Protocol.Codec.Arrays.{All-map, string_first}
use jocko.Protocol.Codec.Carries.{Carries, Carries-then, Carries-map, transmit, transmit-Carries}
use jocko.Protocol.Codec.Fields.{
  Int16, Int32, FitsStr, IsMillis, Absent, int16-Carries, int32-Carries, string-Carries,
  bytes-Carries, duration-Carries, optional-Carries, array-Carries,
}
use jocko.Protocol.Decoder.Values.{FitsBytes}
use jocko.Protocol.Message.JoinGroup.{
  ResponseMember, JoinGroupResponse, encode_response_member, encode_join_group_response,
  decode_response_member, decode_join_group_response,
}

pub record IsValidResponseMember (r : ResponseMember) : Type 0 where
  pub member_id : FitsStr r.member_id
  pub member_metadata : FitsBytes r.member_metadata

pub record IsValidJoinGroupResponse (r : JoinGroupResponse) : Type 0 where
  pub version : at_least 1 r.api_version ≡ at_least 2 r.api_version
  pub throttle_time : IsMillis r.throttle_time
  pub throttle_time_absent : Absent (at_least 2 r.api_version) r.throttle_time (pos 0)
  pub error_code : Int16 r.error_code
  pub generation_id : Int32 r.generation_id
  pub group_protocol : FitsStr r.group_protocol
  pub leader_id : FitsStr r.leader_id
  pub member_id : FitsStr r.member_id
  pub members_length : length r.members ≤ 131070
  pub members : All IsValidResponseMember r.members

response_member_bytes : (r : ResponseMember) → 1 ≤ length (wires (encode_response_member r))
unfolding encode_response_member
response_member_bytes r = string_first r.member_id (drop 1 (encode_response_member r))

response_member-Carries :
    (r : ResponseMember)
    → IsValidResponseMember r
    → Carries decode_response_member (encode_response_member r) r
unfolding encode_response_member decode_response_member
response_member-Carries r h =
    Carries-then _ (string-Carries r.member_id h.member_id)
      (Carries-map _ (bytes-Carries r.member_metadata h.member_metadata))

join_group_response-Carries :
    (r : JoinGroupResponse)
    → IsValidJoinGroupResponse r
    → Carries (decode_join_group_response r.api_version) (encode_join_group_response r) r
unfolding encode_join_group_response decode_join_group_response
join_group_response-Carries r h =
    Carries-then _
      (subst
        (λ b.
          Carries (optional (at_least 2 r.api_version) duration (pos 0))
            (when b (put_duration r.throttle_time ∷ [])) r.throttle_time)
        (sym h.version)
        (optional-Carries (at_least 2 r.api_version) r.throttle_time (pos 0)
          (duration-Carries r.throttle_time h.throttle_time) h.throttle_time_absent))
      (Carries-then _ (int16-Carries r.error_code h.error_code) (
        Carries-then _ (int32-Carries r.generation_id h.generation_id) (
          Carries-then _ (string-Carries r.group_protocol h.group_protocol) (
            Carries-then _ (string-Carries r.leader_id h.leader_id) (
              Carries-then _ (string-Carries r.member_id h.member_id) (
                Carries-map _ (
                  array-Carries _ encode_response_member r.members response_member_bytes
                    h.members_length
                    (All-map IsValidResponseMember _ r.members response_member-Carries
                      h.members))))))))

-- JoinGroupResponse at a version other than 1 over the wire: Encode succeeds on a message, and
-- Decode at the version of the message reads it back from the bytes, to the last of them, when the
-- following holds: numbers are in the range of their types; strings have at most 32767 bytes and
-- the other lengths fit an int32; arrays of structures have at most 131070 items; the throttle time
-- is a whole number of milliseconds that an int32 holds; a field that the version does not send is
-- zero: the throttle time below version 2. Encode sends the throttle time from version 1 on and
-- Decode reads it from version 2 on.
pub transmit-join_group_response :
    (crc32 : List ℕ → ℕ) (r : JoinGroupResponse)
    → IsValidJoinGroupResponse r
    → transmit crc32 (encode_join_group_response r) (decode_join_group_response r.api_version)
      ≡ ok (r, 0)
transmit-join_group_response crc32 r hr =
    transmit-Carries crc32 _ _ r (join_group_response-Carries r hr)
