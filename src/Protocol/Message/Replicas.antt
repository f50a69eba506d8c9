-- ===== src/Protocol/Message/Replicas.antt =====
-- protocol/leader_and_isr_response.go and stop_replica_request.go
pub mod RoundTrip
use jocko.Common.{
  ℕ, zero, ◌≤◌, ◌≡◌, sym, subst, Bool, true, false, Option, none, some, List, [], ◌∷◌, ◌++◌, length,
  All, Str, drop, ap,
}
use jocko.Common.Int.{ℤ, pos, negsuc}
use jocko.Common.Eq.{int_eq}
use jocko.Protocol.Encoder.{PutOp}
use jocko.Protocol.Decoder
use jocko.Protocol.Decoder.{Decode, ◌>>=◌, pure}
use jocko.Protocol.Decoder.Arrays.{array}
use jocko.Protocol.Codec.Arrays.{put_array}
use jocko.Protocol.Fields.{
  at_least, when, optional, put_duration, duration, put_time, time, zero_time, put_flag, or_nil,
}

pub record LeaderAndIsrPartition : Type 0 where
  pub topic : Str
  pub partition : ℤ
  pub error_code : ℤ

pub record LeaderAndIsrResponse : Type 0 where
  pub api_version : ℤ
  pub error_code : ℤ
  pub partitions : List LeaderAndIsrPartition

pub record StopReplicaPartition : Type 0 where
  pub topic : Str
  pub partition : ℤ

pub record StopReplicaRequest : Type 0 where
  pub api_version : ℤ
  pub controller_id : ℤ
  pub controller_epoch : ℤ
  pub delete_partitions : Bool
  pub partitions : List StopReplicaPartition

unfoldable pub encode_leader_and_isr_partition : LeaderAndIsrPartition → List PutOp
encode_leader_and_isr_partition r =
    PutOp.string r.topic ∷ PutOp.int32 r.partition ∷ PutOp.int16 r.error_code ∷ []

unfoldable pub encode_leader_and_isr_response : LeaderAndIsrResponse → List PutOp
unfolding encode_leader_and_isr_partition
encode_leader_and_isr_response r =
    PutOp.int16 r.error_code ∷ put_array encode_leader_and_isr_partition r.partitions

unfoldable pub encode_stop_replica_partition : StopReplicaPartition → List PutOp
encode_stop_replica_partition r = PutOp.string r.topic ∷ PutOp.int32 r.partition ∷ []

unfoldable pub encode_stop_replica_request : StopReplicaRequest → List PutOp
unfolding encode_stop_replica_partition
encode_stop_replica_request r =
    PutOp.int32 r.controller_id
    ∷ PutOp.int32 r.controller_epoch
    ∷ put_flag r.delete_partitions
    ∷ put_array encode_stop_replica_partition r.partitions

unfoldable pub decode_leader_and_isr_partition : Decode LeaderAndIsrPartition
decode_leader_and_isr_partition = do
  topic ← Decoder.string
  partition ← Decoder.int32
  error_code ← Decoder.int16
  pure (record { topic = topic; partition = partition; error_code = error_code })

unfoldable pub decode_leader_and_isr_response : ℤ → Decode LeaderAndIsrResponse
unfolding decode_leader_and_isr_partition
decode_leader_and_isr_response version = do
  error_code ← Decoder.int16
  partitions ← array decode_leader_and_isr_partition
  pure (record { api_version = version; error_code = error_code; partitions = partitions })

unfoldable pub decode_stop_replica_partition : Decode StopReplicaPartition
decode_stop_replica_partition = do
  topic ← Decoder.string
  partition ← Decoder.int32
  pure (record { topic = topic; partition = partition })

unfoldable pub decode_stop_replica_request : ℤ → Decode StopReplicaRequest
unfolding decode_stop_replica_partition
decode_stop_replica_request version = do
  controller_id ← Decoder.int32
  controller_epoch ← Decoder.int32
  delete_partitions ← Decoder.bool
  partitions ← array decode_stop_replica_partition
  pure (record {
    api_version = version;
    controller_id = controller_id;
    controller_epoch = controller_epoch;
    delete_partitions = delete_partitions;
    partitions = partitions;
  })
