-- ===== src/Protocol/Message/AlterConfigs.antt =====
-- protocol/alter_configs_request.go
pub mod RoundTrip
use jocko.Common.{
  ℕ, zero, ◌≤◌, ◌≡◌, sym, subst, Bool, true, false, Option, none, some, List, [], ◌∷◌, ◌++◌, length,
  All, Str, drop, ap,
}
use jocko.Common.Int.{ℤ, pos, negsuc}
use jocko.Common.Eq.{int_eq}
use jocko.Protocol.Encoder.{PutOp}
use jocko.Protocol.Decoder
use jocko.Protocol.Decoder.{Decode, ◌>>=◌, pure}
use jocko.Protocol.Decoder.Arrays.{array}
use jocko.Protocol.Codec.Arrays.{put_array}
use jocko.Protocol.Fields.{
  at_least, when, optional, put_duration, duration, put_time, time, zero_time, put_flag, or_nil,
}

pub record AlterConfigsEntry : Type 0 where
  pub name : Str
  pub value : Option Str

pub record AlterConfigsResource : Type 0 where
  pub resource_type : ℤ
  pub name : Str
  pub entries : List AlterConfigsEntry

pub record AlterConfigsRequest : Type 0 where
  pub api_version : ℤ
  pub resources : List AlterConfigsResource
  pub validate_only : Bool

unfoldable pub encode_alter_configs_entry : AlterConfigsEntry → List PutOp
encode_alter_configs_entry r = PutOp.string r.name ∷ PutOp.nullable_string r.value ∷ []

unfoldable pub encode_alter_configs_resource : AlterConfigsResource → List PutOp
unfolding encode_alter_configs_entry
encode_alter_configs_resource r =
    PutOp.int8 r.resource_type
    ∷ PutOp.string r.name
    ∷ put_array encode_alter_configs_entry r.entries

unfoldable pub encode_alter_configs_request : AlterConfigsRequest → List PutOp
unfolding encode_alter_configs_resource
encode_alter_configs_request r =
    put_array encode_alter_configs_resource r.resources ++ (PutOp.bool r.validate_only ∷ [])

unfoldable pub decode_alter_configs_entry : Decode AlterConfigsEntry
decode_alter_configs_entry = do
  name ← Decoder.string
  value ← Decoder.nullable_string
  pure (record { name = name; value = value })

unfoldable pub decode_alter_configs_resource : Decode AlterConfigsResource
unfolding decode_alter_configs_entry
decode_alter_configs_resource = do
  resource_type ← Decoder.int8
  name ← Decoder.string
  entries ← array decode_alter_configs_entry
  pure (record { resource_type = resource_type; name = name; entries = entries })

unfoldable pub decode_alter_configs_request : ℤ → Decode AlterConfigsRequest
unfolding decode_alter_configs_resource
decode_alter_configs_request version = do
  resources ← array decode_alter_configs_resource
  validate_only ← Decoder.bool
  pure (record { api_version = version; resources = resources; validate_only = validate_only })
