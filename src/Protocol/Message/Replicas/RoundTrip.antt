-- ===== src/Protocol/Message/Replicas/RoundTrip.antt =====
-- The messages of Protocol/Message/Replicas over the wire.
use jocko.Common.{ℕ, ◌≤◌, ◌≡◌, List, length, All, drop}
use jocko.Protocol.Outcome.{ok}
use jocko.Protocol.Codec.{wires}
use jocko.Protocol.Codec.Arrays.{All-map, string_first}
use jocko.Protocol.Codec.Carries.{Carries, Carries-then, Carries-map, transmit, transmit-Carries}
use jocko.Protocol.Codec.Fields.{
  Int16, Int32, FitsStr, flag-Carries, int16-Carries, int32-Carries, string-Carries, array-Carries,
}
use jocko.Protocol.Message.Replicas.{
  LeaderAndIsrPartition, LeaderAndIsrResponse, StopReplicaPartition, StopReplicaRequest,
  encode_leader_and_isr_partition, encode_leader_and_isr_response, encode_stop_replica_partition,
  encode_stop_replica_request, decode_leader_and_isr_partition, decode_leader_and_isr_response,
  decode_stop_replica_partition, decode_stop_replica_request,
}

pub record IsValidLeaderAndIsrPartition (r : LeaderAndIsrPartition) : Type 0 where
  pub topic : FitsStr r.topic
  pub partition : Int32 r.partition
  pub error_code : Int16 r.error_code

pub record IsValidLeaderAndIsrResponse (r : LeaderAndIsrResponse) : Type 0 where
  pub error_code : Int16 r.error_code
  pub partitions_length : length r.partitions ≤ 131070
  pub partitions : All IsValidLeaderAndIsrPartition r.partitions

pub record IsValidStopReplicaPartition (r : StopReplicaPartition) : Type 0 where
  pub topic : FitsStr r.topic
  pub partition : Int32 r.partition

pub record IsValidStopReplicaRequest (r : StopReplicaRequest) : Type 0 where
  pub controller_id : Int32 r.controller_id
  pub controller_epoch : Int32 r.controller_epoch
  pub partitions_length : length r.partitions ≤ 131070
  pub partitions : All IsValidStopReplicaPartition r.partitions

leader_and_isr_partition_bytes :
    (r : LeaderAndIsrPartition) → 1 ≤ length (wires (encode_leader_and_isr_partition r))
unfolding encode_leader_and_isr_partition
leader_and_isr_partition_bytes r = string_first r.topic (drop 1 (encode_leader_and_isr_partition r))

leader_and_isr_partition-Carries :
    (r : LeaderAndIsrPartition)
    → IsValidLeaderAndIsrPartition r
    → Carries decode_leader_and_isr_partition (encode_leader_and_isr_partition r) r
unfolding encode_leader_and_isr_partition decode_leader_and_isr_partition
leader_and_isr_partition-Carries r h = Carries-then _ (string-Carries r.topic h.topic) (
    Carries-then _ (int32-Carries r.partition h.partition)
      (Carries-map _ (int16-Carries r.error_code h.error_code)))

leader_and_isr_response-Carries :
    (r : LeaderAndIsrResponse)
    → IsValidLeaderAndIsrResponse r
    → Carries (decode_leader_and_isr_response r.api_version) (encode_leader_and_isr_response r) r
unfolding encode_leader_and_isr_response decode_leader_and_isr_response
leader_and_isr_response-Carries r h = Carries-then _ (int16-Carries r.error_code h.error_code) (
    Carries-map _ (
      array-Carries _ encode_leader_and_isr_partition r.partitions leader_and_isr_partition_bytes
        h.partitions_length
        (All-map IsValidLeaderAndIsrPartition _ r.partitions leader_and_isr_partition-Carries
          h.partitions)))

stop_replica_partition_bytes :
    (r : StopReplicaPartition) → 1 ≤ length (wires (encode_stop_replica_partition r))
unfolding encode_stop_replica_partition
stop_replica_partition_bytes r = string_first r.topic (drop 1 (encode_stop_replica_partition r))

stop_replica_partition-Carries :
    (r : StopReplicaPartition)
    → IsValidStopReplicaPartition r
    → Carries decode_stop_replica_partition (encode_stop_replica_partition r) r
unfolding encode_stop_replica_partition decode_stop_replica_partition
stop_replica_partition-Carries r h =
    Carries-then _ (string-Carries r.topic h.topic)
      (Carries-map _ (int32-Carries r.partition h.partition))

stop_replica_request-Carries :
    (r : StopReplicaRequest)
    → IsValidStopReplicaRequest r
    → Carries (decode_stop_replica_request r.api_version) (encode_stop_replica_request r) r
unfolding encode_stop_replica_request decode_stop_replica_request
stop_replica_request-Carries r h = Carries-then _ (int32-Carries r.controller_id h.controller_id) (
    Carries-then _ (int32-Carries r.controller_epoch h.controller_epoch) (
      Carries-then _ (flag-Carries r.delete_partitions) (
        Carries-map _ (
          array-Carries _ encode_stop_replica_partition r.partitions stop_replica_partition_bytes
            h.partitions_length
            (All-map IsValidStopReplicaPartition _ r.partitions stop_replica_partition-Carries
              h.partitions)))))

-- LeaderAndISRResponse and StopReplicaRequest over the wire: Encode succeeds on a message, and
-- Decode at the version of the message reads it back from the bytes, to the last of them, when the
-- following holds: numbers are in the range of their types; strings have at most 32767 bytes and
-- the other lengths fit an int32; arrays of structures have at most 131070 items.
pub transmit-replicas :
    (crc32 : List ℕ → ℕ) (req : LeaderAndIsrResponse) (res : StopReplicaRequest)
    → IsValidLeaderAndIsrResponse req
    → IsValidStopReplicaRequest res
    → (transmit crc32
          (encode_leader_and_isr_response req)
          (decode_leader_and_isr_response req.api_version)
        ≡ ok (req, 0))
      × (transmit crc32
            (encode_stop_replica_request res)
            (decode_stop_replica_request res.api_version)
          ≡ ok (res, 0))
transmit-replicas crc32 req res hreq hres = (
  transmit-Carries crc32 _ _ req (leader_and_isr_response-Carries req hreq),
  transmit-Carries crc32 _ _ res (stop_replica_request-Carries res hres),
)
