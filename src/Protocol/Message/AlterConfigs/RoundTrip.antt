-- ===== src/Protocol/Message/AlterConfigs/RoundTrip.antt =====
-- The messages of Protocol/Message/AlterConfigs over the wire.
use jocko.Common.{ℕ, ◌≤◌, ◌≡◌, List, length, All, drop}
use jocko.Protocol.Outcome.{ok}
use jocko.Protocol.Codec.{wires}
use jocko.Protocol.Codec.Arrays.{All-map, string_first}
use jocko.Protocol.Codec.Carries.{Carries, Carries-then, Carries-map, transmit, transmit-Carries}
use jocko.Protocol.Codec.Fields.{
  Int8, FitsStr, bool-Carries, int8-Carries, string-Carries, nullable_string-Carries, array-Carries,
  int8_first,
}
use jocko.Protocol.Decoder.Values.{FitsString}
use jocko.Protocol.Message.AlterConfigs.{
  AlterConfigsEntry, AlterConfigsResource, AlterConfigsRequest, encode_alter_configs_entry,
  encode_alter_configs_resource, encode_alter_configs_request, decode_alter_configs_entry,
  decode_alter_configs_resource, decode_alter_configs_request,
}

pub record IsValidAlterConfigsEntry (r : AlterConfigsEntry) : Type 0 where
  pub name : FitsStr r.name
  pub value : FitsString r.value

pub record IsValidAlterConfigsResource (r : AlterConfigsResource) : Type 0 where
  pub resource_type : Int8 r.resource_type
  pub name : FitsStr r.name
  pub entries_length : length r.entries ≤ 131070
  pub entries : All IsValidAlterConfigsEntry r.entries

pub record IsValidAlterConfigsRequest (r : AlterConfigsRequest) : Type 0 where
  pub resources_length : length r.resources ≤ 131070
  pub resources : All IsValidAlterConfigsResource r.resources

alter_configs_entry_bytes :
    (r : AlterConfigsEntry) → 1 ≤ length (wires (encode_alter_configs_entry r))
unfolding encode_alter_configs_entry
alter_configs_entry_bytes r = string_first r.name (drop 1 (encode_alter_configs_entry r))

alter_configs_entry-Carries :
    (r : AlterConfigsEntry)
    → IsValidAlterConfigsEntry r
    → Carries decode_alter_configs_entry (encode_alter_configs_entry r) r
unfolding encode_alter_configs_entry decode_alter_configs_entry
alter_configs_entry-Carries r h =
    Carries-then _ (string-Carries r.name h.name)
      (Carries-map _ (nullable_string-Carries r.value h.value))

alter_configs_resource_bytes :
    (r : AlterConfigsResource) → 1 ≤ length (wires (encode_alter_configs_resource r))
unfolding encode_alter_configs_resource
alter_configs_resource_bytes r =
    int8_first r.resource_type (drop 1 (encode_alter_configs_resource r))

alter_configs_resource-Carries :
    (r : AlterConfigsResource)
    → IsValidAlterConfigsResource r
    → Carries decode_alter_configs_resource (encode_alter_configs_resource r) r
unfolding encode_alter_configs_resource decode_alter_configs_resource
alter_configs_resource-Carries r h = Carries-then _ (int8-Carries r.resource_type h.resource_type) (
    Carries-then _ (string-Carries r.name h.name) (
      Carries-map _ (
        array-Carries _ encode_alter_configs_entry r.entries alter_configs_entry_bytes
          h.entries_length
          (All-map IsValidAlterConfigsEntry _ r.entries alter_configs_entry-Carries h.entries))))

alter_configs_request-Carries :
    (r : AlterConfigsRequest)
    → IsValidAlterConfigsRequest r
    → Carries (decode_alter_configs_request r.api_version) (encode_alter_configs_request r) r
unfolding encode_alter_configs_request decode_alter_configs_request
alter_configs_request-Carries r h =
    Carries-then _
      (array-Carries _ encode_alter_configs_resource r.resources alter_configs_resource_bytes
        h.resources_length
        (All-map IsValidAlterConfigsResource _ r.resources alter_configs_resource-Carries
          h.resources))
      (Carries-map _ (bool-Carries r.validate_only))

-- AlterConfigsRequest over the wire: Encode succeeds on a message, and Decode at the version of the
-- message reads it back from the bytes, to the last of them, when the following holds: numbers are
-- in the range of their types; strings have at most 32767 bytes and the other lengths fit an int32;
-- arrays of structures have at most 131070 items.
pub transmit-alter_configs_request :
    (crc32 : List ℕ → ℕ) (r : AlterConfigsRequest)
    → IsValidAlterConfigsRequest r
    → transmit crc32 (encode_alter_configs_request r) (decode_alter_configs_request r.api_version)
      ≡ ok (r, 0)
transmit-alter_configs_request crc32 r hr =
    transmit-Carries crc32 _ _ r (alter_configs_request-Carries r hr)
