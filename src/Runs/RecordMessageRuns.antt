-- ===== src/Runs/RecordMessageRuns.antt =====
-- The messages of protocol/ over the wire, at concrete messages.
use jocko.Common.{ℕ, List, [], ◌∷◌, some, true, codes, length, ◌≡◌, refl, arith}
use jocko.Common.Int.{pos}
use jocko.Protocol.Outcome.{ok}
use jocko.Protocol.Codec.Carries.{transmit}
use jocko.Protocol.Message.Fetch.{
  FetchRequest, encode_fetch_request, decode_fetch_request, FetchResponse, encode_fetch_response,
  decode_fetch_response,
}
use jocko.Protocol.Message.Fetch.RoundTrip.{
  transmit-fetch, IsValidFetchRequest, IsValidFetchResponse,
}
use jocko.Protocol.Message.Produce.{
  ProduceRequest, encode_produce_request, decode_produce_request, ProduceResponse,
  encode_produce_response, decode_produce_response,
}
use jocko.Protocol.Message.Produce.RoundTrip.{
  transmit-produce, IsValidProduceRequest, IsValidProduceResponse,
}
use jocko.Protocol.Message.Metadata.{
  MetadataRequest, encode_metadata_request, decode_metadata_request, MetadataResponse,
  encode_metadata_response, decode_metadata_response,
}
use jocko.Protocol.Message.Metadata.RoundTrip.{
  transmit-metadata, IsValidMetadataRequest, IsValidMetadataResponse,
}

-- A checksum for the runs: the number of the bytes.
abbrev checksum : List ℕ → ℕ
checksum bs = length bs

abbrev fetch_request : FetchRequest
fetch_request = record {
  api_version = pos 5;
  replica_id = pos 3;
  max_wait_time = pos 5000000;
  min_bytes = pos 3;
  max_bytes = pos 3;
  isolation_level = pos 1;
  topics =
      record {
        topic = codes "a";
        partitions = record { partition = pos 3; fetch_offset = pos 4; max_bytes = pos 3 } ∷ [];
      }
      ∷ [];
}

fetch_request-IsValid : IsValidFetchRequest fetch_request
fetch_request-IsValid = record {
  replica_id = (omega arith, refl);
  max_wait_time = (pos 5, omega arith, refl);
  min_bytes = omega arith;
  max_bytes = omega arith;
  max_bytes_absent = tt;
  isolation_level = omega arith;
  isolation_level_absent = tt;
  topics_length = omega arith;
  topics = (
    record {
      topic = omega arith;
      partitions_length = omega arith;
      partitions = (
        record { partition = omega arith; fetch_offset = omega arith; max_bytes = omega arith },
        tt,
      );
    },
    tt,
  );
}

abbrev fetch_response : FetchResponse
fetch_response = record {
  api_version = pos 5;
  throttle_time = pos 5000000;
  responses =
      record {
        topic = codes "a";
        partition_responses =
            record {
              partition = pos 3;
              error_code = pos 2;
              high_watermark = pos 4;
              last_stable_offset = pos 4;
              aborted_transactions = record { producer_id = pos 4; first_offset = pos 4 } ∷ [];
              record_set = some (1 ∷ 2 ∷ []);
            }
            ∷ [];
      }
      ∷ [];
}

fetch_response-IsValid : IsValidFetchResponse fetch_response
fetch_response-IsValid = record {
  throttle_time = (pos 5, omega arith, refl);
  throttle_time_absent = tt;
  responses_length = omega arith;
  responses = (
    record {
      topic = omega arith;
      partition_responses_length = omega arith;
      partition_responses = (
        record {
          partition = omega arith;
          error_code = omega arith;
          high_watermark = omega arith;
          last_stable_offset = omega arith;
          last_stable_offset_absent = tt;
          aborted_transactions_length = omega arith;
          aborted_transactions =
              (record { producer_id = omega arith; first_offset = omega arith }, tt);
          aborted_transactions_absent = tt;
          record_set = omega arith;
        },
        tt,
      );
    },
    tt,
  );
}

transmit-fetch_example :
    (transmit checksum
        (encode_fetch_request fetch_request)
        (decode_fetch_request fetch_request.api_version)
      ≡ ok (fetch_request, 0))
    × (transmit checksum
          (encode_fetch_response fetch_response)
          (decode_fetch_response fetch_response.api_version)
        ≡ ok (fetch_response, 0))
transmit-fetch_example =
    transmit-fetch checksum fetch_request fetch_response fetch_request-IsValid
      fetch_response-IsValid

abbrev produce_request : ProduceRequest
produce_request = record {
  api_version = pos 5;
  transactional_id = some (codes "b");
  acks = pos 2;
  timeout = pos 5000000;
  topic_data =
      record {
        topic = codes "a";
        data_sets = record { partition = pos 3; record_set = some (1 ∷ 2 ∷ []) } ∷ [];
      }
      ∷ [];
}

produce_request-IsValid : IsValidProduceRequest produce_request
produce_request-IsValid = record {
  transactional_id = omega arith;
  transactional_id_absent = tt;
  acks = omega arith;
  timeout = (pos 5, omega arith, refl);
  topic_data_length = omega arith;
  topic_data = (
    record {
      topic = omega arith;
      data_sets_length = omega arith;
      data_sets = (record { partition = omega arith; record_set = omega arith }, tt);
    },
    tt,
  );
}

abbrev produce_response : ProduceResponse
produce_response = record {
  api_version = pos 5;
  responses =
      record {
        topic = codes "a";
        partition_responses =
            record {
              partition = pos 3;
              error_code = pos 2;
              base_offset = pos 4;
              log_append_time = pos 5000000;
              log_start_offset = pos 4;
            }
            ∷ [];
      }
      ∷ [];
  throttle_time = pos 5000000;
}

produce_response-IsValid : IsValidProduceResponse produce_response
produce_response-IsValid = record {
  responses_length = omega arith;
  responses = (
    record {
      topic = omega arith;
      partition_responses_length = omega arith;
      partition_responses = (
        record {
          recent = refl;
          partition = omega arith;
          error_code = omega arith;
          base_offset = omega arith;
          log_append_time = (pos 5, omega arith, omega arith, refl);
          log_append_time_absent = tt;
          log_start_offset = omega arith;
          log_start_offset_absent = tt;
        },
        tt,
      );
    },
    tt,
  );
  throttle_time = (pos 5, omega arith, refl);
  throttle_time_absent = tt;
}

transmit-produce_example :
    (transmit checksum
        (encode_produce_request produce_request)
        (decode_produce_request produce_request.api_version)
      ≡ ok (produce_request, 0))
    × (transmit checksum
          (encode_produce_response produce_response)
          (decode_produce_response produce_response.api_version)
        ≡ ok (produce_response, 0))
transmit-produce_example =
    transmit-produce checksum produce_request produce_response produce_request-IsValid
      produce_response-IsValid

abbrev metadata_request : MetadataRequest
metadata_request = record {
  api_version = pos 5;
  topics = codes "c" ∷ [];
  allow_auto_topic_creation = true;
}

metadata_request-IsValid : IsValidMetadataRequest metadata_request
metadata_request-IsValid = record {
  topics = (omega arith, (omega arith, tt));
  allow_auto_topic_creation_absent = tt;
}

abbrev metadata_response : MetadataResponse
metadata_response = record {
  api_version = pos 5;
  brokers = record { node_id = pos 3; host = codes "a"; port = pos 3 } ∷ [];
  controller_id = pos 3;
  topic_metadata =
      record {
        topic_error_code = pos 2;
        topic = codes "a";
        partition_metadata =
            record {
              partition_error_code = pos 2;
              partition_id = pos 3;
              leader = pos 3;
              replicas = pos 1 ∷ [];
              isr = pos 1 ∷ [];
            }
            ∷ [];
      }
      ∷ [];
}

metadata_response-IsValid : IsValidMetadataResponse metadata_response
metadata_response-IsValid = record {
  brokers_length = omega arith;
  brokers = (record { node_id = omega arith; host = omega arith; port = omega arith }, tt);
  controller_id = omega arith;
  controller_id_absent = tt;
  topic_metadata_length = omega arith;
  topic_metadata = (
    record {
      topic_error_code = omega arith;
      topic = omega arith;
      partition_metadata_length = omega arith;
      partition_metadata = (
        record {
          partition_error_code = omega arith;
          partition_id = omega arith;
          leader = omega arith;
          replicas = (omega arith, (omega arith, tt));
          isr = (omega arith, (omega arith, tt));
        },
        tt,
      );
    },
    tt,
  );
}

transmit-metadata_example :
    (transmit checksum
        (encode_metadata_request metadata_request)
        (decode_metadata_request metadata_request.api_version)
      ≡ ok (metadata_request, 0))
    × (transmit checksum
          (encode_metadata_response metadata_response)
          (decode_metadata_response metadata_response.api_version)
        ≡ ok (metadata_response, 0))
transmit-metadata_example =
    transmit-metadata checksum metadata_request metadata_response metadata_request-IsValid
      metadata_response-IsValid
