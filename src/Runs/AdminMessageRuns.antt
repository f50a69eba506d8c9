-- ===== src/Runs/AdminMessageRuns.antt =====
-- The messages of protocol/ over the wire, at concrete messages.
use jocko.Common.{ℕ, List, [], ◌∷◌, some, true, codes, length, ◌≡◌, refl, arith}
use jocko.Common.Int.{pos}
use jocko.Protocol.Outcome.{ok}
use jocko.Protocol.Codec.Carries.{transmit}
use jocko.Protocol.Message.Topics.{
  CreateTopicsResponse, encode_create_topics_response, decode_create_topics_response,
  DeleteTopicsRequest, encode_delete_topics_request, decode_delete_topics_request,
}
use jocko.Protocol.Message.Topics.RoundTrip.{
  transmit-topics, IsValidCreateTopicsResponse, IsValidDeleteTopicsRequest,
}
use jocko.Protocol.Message.Replicas.{
  LeaderAndIsrResponse, encode_leader_and_isr_response, decode_leader_and_isr_response,
  StopReplicaRequest, encode_stop_replica_request, decode_stop_replica_request,
}
use jocko.Protocol.Message.Replicas.RoundTrip.{
  transmit-replicas, IsValidLeaderAndIsrResponse, IsValidStopReplicaRequest,
}
use jocko.Protocol.Message.AlterConfigs.{
  AlterConfigsRequest, encode_alter_configs_request, decode_alter_configs_request,
}
use jocko.Protocol.Message.AlterConfigs.RoundTrip.{
  transmit-alter_configs_request, IsValidAlterConfigsRequest,
}
use jocko.Protocol.Message.DescribeConfigs.{
  DescribeConfigsRequest, encode_describe_configs_request, decode_describe_configs_request,
  DescribeConfigsResponse, encode_describe_configs_response, decode_describe_configs_response,
}
use jocko.Protocol.Message.DescribeConfigs.RoundTrip.{
  transmit-describe_configs, IsValidDescribeConfigsRequest, IsValidDescribeConfigsResponse,
}

-- A checksum for the runs: the number of the bytes.
abbrev checksum : List ℕ → ℕ
checksum bs = length bs

abbrev create_topics_response : CreateTopicsResponse
create_topics_response = record {
  api_version = pos 5;
  throttle_time = pos 5000000;
  topic_error_codes =
      record { topic = codes "a"; error_code = pos 2; error_message = some (codes "b") } ∷ [];
}

create_topics_response-IsValid : IsValidCreateTopicsResponse create_topics_response
create_topics_response-IsValid = record {
  throttle_time = (pos 5, omega arith, refl);
  throttle_time_absent = tt;
  topic_error_codes_length = omega arith;
  topic_error_codes = (
    record {
      topic = omega arith;
      error_code = omega arith;
      error_message = omega arith;
      error_message_absent = tt;
    },
    tt,
  );
}

abbrev delete_topics_request : DeleteTopicsRequest
delete_topics_request = record {
  api_version = pos 5;
  topics = codes "c" ∷ [];
  timeout = pos 5000000;
}

delete_topics_request-IsValid : IsValidDeleteTopicsRequest delete_topics_request
delete_topics_request-IsValid = record {
  topics = (omega arith, (omega arith, tt));
  timeout = (pos 5, omega arith, refl);
}

transmit-topics_example :
    (transmit checksum
        (encode_create_topics_response create_topics_response)
        (decode_create_topics_response create_topics_response.api_version)
      ≡ ok (create_topics_response, 0))
    × (transmit checksum
          (encode_delete_topics_request delete_topics_request)
          (decode_delete_topics_request delete_topics_request.api_version)
        ≡ ok (delete_topics_request, 0))
transmit-topics_example =
    transmit-topics checksum create_topics_response delete_topics_request
      create_topics_response-IsValid delete_topics_request-IsValid

abbrev leader_and_isr_response : LeaderAndIsrResponse
leader_and_isr_response = record {
  api_version = pos 5;
  error_code = pos 2;
  partitions = record { topic = codes "a"; partition = pos 3; error_code = pos 2 } ∷ [];
}

leader_and_isr_response-IsValid : IsValidLeaderAndIsrResponse leader_and_isr_response
leader_and_isr_response-IsValid = record {
  error_code = omega arith;
  partitions_length = omega arith;
  partitions =
      (record { topic = omega arith; partition = omega arith; error_code = omega arith }, tt);
}

abbrev stop_replica_request : StopReplicaRequest
stop_replica_request = record {
  api_version = pos 5;
  controller_id = pos 3;
  controller_epoch = pos 3;
  delete_partitions = true;
  partitions = record { topic = codes "a"; partition = pos 3 } ∷ [];
}

stop_replica_request-IsValid : IsValidStopReplicaRequest stop_replica_request
stop_replica_request-IsValid = record {
  controller_id = omega arith;
  controller_epoch = omega arith;
  partitions_length = omega arith;
  partitions = (record { topic = omega arith; partition = omega arith }, tt);
}

transmit-replicas_example :
    (transmit checksum
        (encode_leader_and_isr_response leader_and_isr_response)
        (decode_leader_and_isr_response leader_and_isr_response.api_version)
      ≡ ok (leader_and_isr_response, 0))
    × (transmit checksum
          (encode_stop_replica_request stop_replica_request)
          (decode_stop_replica_request stop_replica_request.api_version)
        ≡ ok (stop_replica_request, 0))
transmit-replicas_example =
    transmit-replicas checksum leader_and_isr_response stop_replica_request
      leader_and_isr_response-IsValid stop_replica_request-IsValid

abbrev alter_configs_request : AlterConfigsRequest
alter_configs_request = record {
  api_version = pos 5;
  resources =
      record {
        resource_type = pos 1;
        name = codes "a";
        entries = record { name = codes "a"; value = some (codes "b") } ∷ [];
      }
      ∷ [];
  validate_only = true;
}

alter_configs_request-IsValid : IsValidAlterConfigsRequest alter_configs_request
alter_configs_request-IsValid = record {
  resources_length = omega arith;
  resources = (
    record {
      resource_type = omega arith;
      name = omega arith;
      entries_length = omega arith;
      entries = (record { name = omega arith; value = omega arith }, tt);
    },
    tt,
  );
}

transmit-alter_configs_request_example :
    transmit checksum
      (encode_alter_configs_request alter_configs_request)
      (decode_alter_configs_request alter_configs_request.api_version)
    ≡ ok (alter_configs_request, 0)
transmit-alter_configs_request_example =
    transmit-alter_configs_request checksum alter_configs_request alter_configs_request-IsValid

abbrev describe_configs_request : DescribeConfigsRequest
describe_configs_request = record {
  api_version = pos 5;
  resources =
      record { resource_type = pos 1; name = codes "a"; config_names = codes "c" ∷ [] } ∷ [];
  include_synonyms = true;
}

describe_configs_request-IsValid : IsValidDescribeConfigsRequest describe_configs_request
describe_configs_request-IsValid = record {
  resources_length = omega arith;
  resources = (
    record {
      resource_type = omega arith;
      name = omega arith;
      config_names = (omega arith, (omega arith, tt));
    },
    tt,
  );
  include_synonyms_absent = tt;
}

abbrev describe_configs_response : DescribeConfigsResponse
describe_configs_response = record {
  api_version = pos 5;
  throttle_time = pos 5000000;
  resources =
      record {
        error_code = pos 2;
        error_message = some (codes "b");
        resource_type = pos 1;
        name = codes "a";
        config_entries =
            record {
              name = codes "a";
              value = some (codes "b");
              read_only = true;
              is_default = true;
              is_sensitive = true;
              synonyms = record { name = codes "a"; value = some (codes "b"); source = pos 1 } ∷ [];
            }
            ∷ [];
      }
      ∷ [];
}

describe_configs_response-IsValid : IsValidDescribeConfigsResponse describe_configs_response
describe_configs_response-IsValid = record {
  throttle_time = (pos 5, omega arith, refl);
  resources_length = omega arith;
  resources = (
    record {
      error_code = omega arith;
      error_message = omega arith;
      resource_type = omega arith;
      name = omega arith;
      config_entries_length = omega arith;
      config_entries = (
        record {
          name = omega arith;
          value = omega arith;
          synonyms_length = omega arith;
          synonyms = (record { name = omega arith; value = omega arith; source = omega arith }, tt);
          synonyms_absent = tt;
        },
        tt,
      );
    },
    tt,
  );
}

transmit-describe_configs_example :
    (transmit checksum
        (encode_describe_configs_request describe_configs_request)
        (decode_describe_configs_request describe_configs_request.api_version)
      ≡ ok (describe_configs_request, 0))
    × (transmit checksum
          (encode_describe_configs_response describe_configs_response)
          (decode_describe_configs_response describe_configs_response.api_version)
        ≡ ok (describe_configs_response, 0))
transmit-describe_configs_example =
    transmit-describe_configs checksum describe_configs_request describe_configs_response
      describe_configs_request-IsValid describe_configs_response-IsValid
