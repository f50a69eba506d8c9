-- ===== src/Protocol/Message/DescribeConfigs/RoundTrip.antt =====
-- The messages of Protocol/Message/DescribeConfigs over the wire.
use jocko.Common.{ℕ, ◌≤◌, ◌≡◌, false, List, [], length, All, drop}
use jocko.Common.Int.{ℤ}
use jocko.Protocol.Fields.{at_least}
use jocko.Protocol.Outcome.{ok}
use jocko.Protocol.Codec.{wires}
use jocko.Protocol.Codec.Arrays.{All-map, string_first}
use jocko.Protocol.Codec.Carries.{Carries, Carries-then, Carries-map, transmit, transmit-Carries}
use jocko.Protocol.Codec.Fields.{
  Int8, Int16, FitsStr, FitsStrs, IsMillis, Absent, bool-Carries, int8-Carries, int16-Carries,
  string-Carries, nullable_string-Carries, string_array-Carries, duration-Carries, optional-Carries,
  array-Carries, int16_first, int8_first,
}
use jocko.Protocol.Decoder.Values.{FitsString}
use jocko.Protocol.Message.DescribeConfigs.{
  DescribeConfigsResource, DescribeConfigsRequest, DescribeConfigsSynonym, DescribeConfigsEntry,
  DescribeConfigsResourceResponse, DescribeConfigsResponse, encode_describe_configs_resource,
  encode_describe_configs_request, encode_describe_configs_synonym, encode_describe_configs_entry,
  encode_describe_configs_resource_response, encode_describe_configs_response,
  decode_describe_configs_resource, decode_describe_configs_request,
  decode_describe_configs_synonym, decode_describe_configs_entry,
  decode_describe_configs_resource_response, decode_describe_configs_response,
}

pub record IsValidDescribeConfigsResource (r : DescribeConfigsResource) : Type 0 where
  pub resource_type : Int8 r.resource_type
  pub name : FitsStr r.name
  pub config_names : FitsStrs r.config_names

pub record IsValidDescribeConfigsRequest (r : DescribeConfigsRequest) : Type 0 where
  pub resources_length : length r.resources ≤ 131070
  pub resources : All IsValidDescribeConfigsResource r.resources
  pub include_synonyms_absent : Absent (at_least 1 r.api_version) r.include_synonyms false

pub record IsValidDescribeConfigsSynonym (r : DescribeConfigsSynonym) : Type 0 where
  pub name : FitsStr r.name
  pub value : FitsString r.value
  pub source : Int8 r.source

pub record IsValidDescribeConfigsEntry (version : ℤ) (r : DescribeConfigsEntry) : Type 0 where
  pub name : FitsStr r.name
  pub value : FitsString r.value
  pub synonyms_length : length r.synonyms ≤ 131070
  pub synonyms : All IsValidDescribeConfigsSynonym r.synonyms
  pub synonyms_absent : Absent (at_least 1 version) r.synonyms []

pub record IsValidDescribeConfigsResourceResponse (version : ℤ)
    (r : DescribeConfigsResourceResponse) : Type 0 where
  pub error_code : Int16 r.error_code
  pub error_message : FitsString r.error_message
  pub resource_type : Int8 r.resource_type
  pub name : FitsStr r.name
  pub config_entries_length : length r.config_entries ≤ 131070
  pub config_entries : All (IsValidDescribeConfigsEntry version) r.config_entries

pub record IsValidDescribeConfigsResponse (r : DescribeConfigsResponse) : Type 0 where
  pub throttle_time : IsMillis r.throttle_time
  pub resources_length : length r.resources ≤ 131070
  pub resources : All (IsValidDescribeConfigsResourceResponse r.api_version) r.resources

describe_configs_resource_bytes :
    (r : DescribeConfigsResource) → 1 ≤ length (wires (encode_describe_configs_resource r))
unfolding encode_describe_configs_resource
describe_configs_resource_bytes r =
    int8_first r.resource_type (drop 1 (encode_describe_configs_resource r))

describe_configs_resource-Carries :
    (r : DescribeConfigsResource)
    → IsValidDescribeConfigsResource r
    → Carries decode_describe_configs_resource (encode_describe_configs_resource r) r
unfolding encode_describe_configs_resource decode_describe_configs_resource
describe_configs_resource-Carries r h =
    Carries-then _ (int8-Carries r.resource_type h.resource_type) (
      Carries-then _ (string-Carries r.name h.name)
        (Carries-map _ (string_array-Carries r.config_names h.config_names)))

describe_configs_request-Carries :
    (r : DescribeConfigsRequest)
    → IsValidDescribeConfigsRequest r
    → Carries (decode_describe_configs_request r.api_version) (encode_describe_configs_request r) r
unfolding encode_describe_configs_request decode_describe_configs_request
describe_configs_request-Carries r h =
    Carries-then _
      (array-Carries _ encode_describe_configs_resource r.resources describe_configs_resource_bytes
        h.resources_length
        (All-map IsValidDescribeConfigsResource _ r.resources describe_configs_resource-Carries
          h.resources))
      (Carries-map _ (
        optional-Carries (at_least 1 r.api_version) r.include_synonyms false
          (bool-Carries r.include_synonyms) h.include_synonyms_absent))

describe_configs_synonym_bytes :
    (r : DescribeConfigsSynonym) → 1 ≤ length (wires (encode_describe_configs_synonym r))
unfolding encode_describe_configs_synonym
describe_configs_synonym_bytes r = string_first r.name (drop 1 (encode_describe_configs_synonym r))

describe_configs_synonym-Carries :
    (r : DescribeConfigsSynonym)
    → IsValidDescribeConfigsSynonym r
    → Carries decode_describe_configs_synonym (encode_describe_configs_synonym r) r
unfolding encode_describe_configs_synonym decode_describe_configs_synonym
describe_configs_synonym-Carries r h = Carries-then _ (string-Carries r.name h.name) (
    Carries-then _ (nullable_string-Carries r.value h.value)
      (Carries-map _ (int8-Carries r.source h.source)))

describe_configs_entry_bytes :
    (version : ℤ) (r : DescribeConfigsEntry)
    → 1 ≤ length (wires (encode_describe_configs_entry version r))
unfolding encode_describe_configs_entry
describe_configs_entry_bytes version r =
    string_first r.name (drop 1 (encode_describe_configs_entry version r))

describe_configs_entry-Carries :
    (version : ℤ) (r : DescribeConfigsEntry)
    → IsValidDescribeConfigsEntry version r
    → Carries (decode_describe_configs_entry version) (encode_describe_configs_entry version r) r
unfolding encode_describe_configs_entry decode_describe_configs_entry
describe_configs_entry-Carries version r h = Carries-then _ (string-Carries r.name h.name) (
    Carries-then _ (nullable_string-Carries r.value h.value) (
      Carries-then _ (bool-Carries r.read_only) (
        Carries-then _ (bool-Carries r.is_default) (
          Carries-then _ (bool-Carries r.is_sensitive) (
            Carries-map _ (
              optional-Carries (at_least 1 version) r.synonyms []
                (array-Carries _ encode_describe_configs_synonym r.synonyms
                  describe_configs_synonym_bytes h.synonyms_length
                  (All-map IsValidDescribeConfigsSynonym _ r.synonyms
                    describe_configs_synonym-Carries h.synonyms))
                h.synonyms_absent))))))

describe_configs_resource_response_bytes :
    (version : ℤ) (r : DescribeConfigsResourceResponse)
    → 1 ≤ length (wires (encode_describe_configs_resource_response version r))
unfolding encode_describe_configs_resource_response
describe_configs_resource_response_bytes version r =
    int16_first r.error_code (drop 1 (encode_describe_configs_resource_response version r))

describe_configs_resource_response-Carries :
    (version : ℤ) (r : DescribeConfigsResourceResponse)
    → IsValidDescribeConfigsResourceResponse version r
    → Carries
        (decode_describe_configs_resource_response version)
        (encode_describe_configs_resource_response version r)
        r
unfolding encode_describe_configs_resource_response decode_describe_configs_resource_response
describe_configs_resource_response-Carries version r h =
    Carries-then _ (int16-Carries r.error_code h.error_code) (
      Carries-then _ (nullable_string-Carries r.error_message h.error_message) (
        Carries-then _ (int8-Carries r.resource_type h.resource_type) (
          Carries-then _ (string-Carries r.name h.name) (
            Carries-map _ (
              array-Carries _ (encode_describe_configs_entry version) r.config_entries
                (describe_configs_entry_bytes version) h.config_entries_length
                (All-map (IsValidDescribeConfigsEntry version) _ r.config_entries
                  (describe_configs_entry-Carries version) h.config_entries))))))

describe_configs_response-Carries :
    (r : DescribeConfigsResponse)
    → IsValidDescribeConfigsResponse r
    → Carries
        (decode_describe_configs_response r.api_version)
        (encode_describe_configs_response r)
        r
unfolding encode_describe_configs_response decode_describe_configs_response
describe_configs_response-Carries r h =
    Carries-then _ (duration-Carries r.throttle_time h.throttle_time) (
      Carries-map _ (
        array-Carries _ (encode_describe_configs_resource_response r.api_version) r.resources
          (describe_configs_resource_response_bytes r.api_version) h.resources_length
          (All-map (IsValidDescribeConfigsResourceResponse r.api_version) _ r.resources
            (describe_configs_resource_response-Carries r.api_version) h.resources)))

-- DescribeConfigsRequest and DescribeConfigsResponse over the wire: Encode succeeds on a message,
-- and Decode at the version of the message reads it back from the bytes, to the last of them, when
-- the following holds: numbers are in the range of their types; strings have at most 32767 bytes
-- and the other lengths fit an int32; arrays of structures have at most 131070 items; the throttle
-- time is a whole number of milliseconds that an int32 holds; a field that the version does not
-- send is zero: IncludeSynonyms of a request and the synonyms of a response, both below version 1.
pub transmit-describe_configs :
    (crc32 : List ℕ → ℕ) (req : DescribeConfigsRequest) (res : DescribeConfigsResponse)
    → IsValidDescribeConfigsRequest req
    → IsValidDescribeConfigsResponse res
    → (transmit crc32
          (encode_describe_configs_request req)
          (decode_describe_configs_request req.api_version)
        ≡ ok (req, 0))
      × (transmit crc32
            (encode_describe_configs_response res)
            (decode_describe_configs_response res.api_version)
          ≡ ok (res, 0))
transmit-describe_configs crc32 req res hreq hres = (
  transmit-Carries crc32 _ _ req (describe_configs_request-Carries req hreq),
  transmit-Carries crc32 _ _ res (describe_configs_response-Carries res hres),
)
