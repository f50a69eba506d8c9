-- ===== src/Protocol/Message/DescribeConfigs.antt =====
-- protocol/describe_configs_request.go and describe_configs_response.go
pub mod RoundTrip
use jocko.Common.{
  ℕ, zero, ◌≤◌, ◌≡◌, sym, subst, Bool, true, false, Option, none, some, List, [], ◌∷◌, ◌++◌, length,
  All, Str, drop, ap,
}
use jocko.Common.Int.{ℤ, pos, negsuc}
use jocko.Common.Eq.{int_eq}
use jocko.Protocol.Encoder.{PutOp}
use jocko.Protocol.Decoder
use jocko.Protocol.Decoder.{Decode, ◌>>=◌, pure}
use jocko.Protocol.Decoder.Arrays.{array}
use jocko.Protocol.Codec.Arrays.{put_array}
use jocko.Protocol.Fields.{
  at_least, when, optional, put_duration, duration, put_time, time, zero_time, put_flag, or_nil,
}

pub record DescribeConfigsResource : Type 0 where
  pub resource_type : ℤ
  pub name : Str
  pub config_names : List Str

pub record DescribeConfigsRequest : Type 0 where
  pub api_version : ℤ
  pub resources : List DescribeConfigsResource
  pub include_synonyms : Bool

pub record DescribeConfigsSynonym : Type 0 where
  pub name : Str
  pub value : Option Str
  pub source : ℤ

pub record DescribeConfigsEntry : Type 0 where
  pub name : Str
  pub value : Option Str
  pub read_only : Bool
  pub is_default : Bool
  pub is_sensitive : Bool
  pub synonyms : List DescribeConfigsSynonym

pub record DescribeConfigsResourceResponse : Type 0 where
  pub error_code : ℤ
  pub error_message : Option Str
  pub resource_type : ℤ
  pub name : Str
  pub config_entries : List DescribeConfigsEntry

pub record DescribeConfigsResponse : Type 0 where
  pub api_version : ℤ
  pub throttle_time : ℤ
  pub resources : List DescribeConfigsResourceResponse

unfoldable pub encode_describe_configs_resource : DescribeConfigsResource → List PutOp
encode_describe_configs_resource r =
    PutOp.int8 r.resource_type ∷ PutOp.string r.name ∷ PutOp.string_array r.config_names ∷ []

unfoldable pub encode_describe_configs_request : DescribeConfigsRequest → List PutOp
unfolding encode_describe_configs_resource
encode_describe_configs_request r =
    put_array encode_describe_configs_resource r.resources
    ++ (when (at_least 1 r.api_version) (PutOp.bool r.include_synonyms ∷ []))

unfoldable pub encode_describe_configs_synonym : DescribeConfigsSynonym → List PutOp
encode_describe_configs_synonym r =
    PutOp.string r.name ∷ PutOp.nullable_string r.value ∷ PutOp.int8 r.source ∷ []

unfoldable pub encode_describe_configs_entry : ℤ → DescribeConfigsEntry → List PutOp
unfolding encode_describe_configs_synonym
encode_describe_configs_entry version r =
    PutOp.string r.name
    ∷ PutOp.nullable_string r.value
    ∷ PutOp.bool r.read_only
    ∷ PutOp.bool r.is_default
    ∷ PutOp.bool r.is_sensitive
    ∷ when (at_least 1 version) (put_array encode_describe_configs_synonym r.synonyms)

unfoldable pub encode_describe_configs_resource_response :
    ℤ → DescribeConfigsResourceResponse → List PutOp
unfolding encode_describe_configs_entry
encode_describe_configs_resource_response version r =
    PutOp.int16 r.error_code
    ∷ PutOp.nullable_string r.error_message
    ∷ PutOp.int8 r.resource_type
    ∷ PutOp.string r.name
    ∷ put_array (encode_describe_configs_entry version) r.config_entries

unfoldable pub encode_describe_configs_response : DescribeConfigsResponse → List PutOp
unfolding encode_describe_configs_resource_response
encode_describe_configs_response r =
    put_duration r.throttle_time
    ∷ put_array (encode_describe_configs_resource_response r.api_version) r.resources

unfoldable pub decode_describe_configs_resource : Decode DescribeConfigsResource
decode_describe_configs_resource = do
  resource_type ← Decoder.int8
  name ← Decoder.string
  config_names ← Decoder.string_array
  pure (record { resource_type = resource_type; name = name; config_names = config_names })

unfoldable pub decode_describe_configs_request : ℤ → Decode DescribeConfigsRequest
unfolding decode_describe_configs_resource
decode_describe_configs_request version = do
  resources ← array decode_describe_configs_resource
  include_synonyms ← optional (at_least 1 version) Decoder.bool false
  pure
      (record { api_version = version; resources = resources; include_synonyms = include_synonyms })

unfoldable pub decode_describe_configs_synonym : Decode DescribeConfigsSynonym
decode_describe_configs_synonym = do
  name ← Decoder.string
  value ← Decoder.nullable_string
  source ← Decoder.int8
  pure (record { name = name; value = value; source = source })

unfoldable pub decode_describe_configs_entry : ℤ → Decode DescribeConfigsEntry
unfolding decode_describe_configs_synonym
decode_describe_configs_entry version = do
  name ← Decoder.string
  value ← Decoder.nullable_string
  read_only ← Decoder.bool
  is_default ← Decoder.bool
  is_sensitive ← Decoder.bool
  synonyms ← optional (at_least 1 version) (array decode_describe_configs_synonym) []
  pure (record {
    name = name;
    value = value;
    read_only = read_only;
    is_default = is_default;
    is_sensitive = is_sensitive;
    synonyms = synonyms;
  })

unfoldable pub decode_describe_configs_resource_response :
    ℤ → Decode DescribeConfigsResourceResponse
unfolding decode_describe_configs_entry
decode_describe_configs_resource_response version = do
  error_code ← Decoder.int16
  error_message ← Decoder.nullable_string
  resource_type ← Decoder.int8
  name ← Decoder.string
  config_entries ← array (decode_describe_configs_entry version)
  pure (record {
    error_code = error_code;
    error_message = error_message;
    resource_type = resource_type;
    name = name;
    config_entries = config_entries;
  })

unfoldable pub decode_describe_configs_response : ℤ → Decode DescribeConfigsResponse
unfolding decode_describe_configs_resource_response
decode_describe_configs_response version = do
  throttle_time ← duration
  resources ← array (decode_describe_configs_resource_response version)
  pure (record { api_version = version; throttle_time = throttle_time; resources = resources })
