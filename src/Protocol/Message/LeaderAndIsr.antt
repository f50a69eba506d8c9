-- ===== src/Protocol/Message/LeaderAndIsr.antt =====
-- protocol/leader_and_isr_request.go
pub mod RoundTrip
use jocko.Common.{
  ℕ, ◌≤◌, ◌^◌, Bool, true, false, List, [], ◌∷◌, ◌++◌, length, Str, if◌then◌else◌, leb,
}
use jocko.Common.Int.{ℤ, pos, negsuc}
use jocko.Protocol.Encoder.{PutOp, int32, string, int32_array, bool}
use jocko.Protocol.Codec.Arrays.{put_array}
use jocko.Protocol.Decoder
use jocko.Protocol.Fields.{at_least}
use jocko.Protocol.Decoder.{Decode, ◌>>=◌, pure}
use jocko.Protocol.Decoder.Arrays.{array}

pub record PartitionState : Type 0 where
  pub topic : Str
  pub partition : ℤ
  pub controller_epoch : ℤ
  pub leader : ℤ
  pub leader_epoch : ℤ
  pub isr : List ℤ
  pub zk_version : ℤ
  pub replicas : List ℤ
  pub is_new : Bool

pub record LiveLeader : Type 0 where
  pub id : ℤ
  pub host : Str
  pub port : ℤ

pub record LeaderAndIsrRequest : Type 0 where
  pub api_version : ℤ
  pub controller_id : ℤ
  pub controller_epoch : ℤ
  pub partition_states : List PartitionState
  pub live_leaders : List LiveLeader

abbrev is_new_flag : Bool → Bool → List PutOp
is_new_flag true new = bool new ∷ []
is_new_flag false new = []

unfoldable pub encode_state : ℤ → PartitionState → List PutOp
encode_state version p =
    string p.topic
    ∷ int32 p.partition
    ∷ int32 p.controller_epoch
    ∷ int32 p.leader
    ∷ int32 p.leader_epoch
    ∷ int32_array p.isr
    ∷ int32 p.zk_version
    ∷ int32_array p.replicas
    ∷ is_new_flag (at_least 1 version) p.is_new

unfoldable pub encode_live_leader : LiveLeader → List PutOp
encode_live_leader l = int32 l.id ∷ string l.host ∷ int32 l.port ∷ []

unfoldable pub encode : LeaderAndIsrRequest → List PutOp
unfolding encode_state encode_live_leader
encode r =
    int32 r.controller_id
    ∷ int32 r.controller_epoch
    ∷ (put_array (encode_state r.api_version) r.partition_states
        ++ put_array encode_live_leader r.live_leaders)

-- IsNew is not read, whatever the version.
unfoldable pub decode_state : Decode PartitionState
decode_state = do
  topic ← Decoder.string
  partition ← Decoder.int32
  controller_epoch ← Decoder.int32
  leader ← Decoder.int32
  leader_epoch ← Decoder.int32
  isr ← Decoder.int32_array
  zk_version ← Decoder.int32
  replicas ← Decoder.int32_array
  pure (record {
    topic = topic;
    partition = partition;
    controller_epoch = controller_epoch;
    leader = leader;
    leader_epoch = leader_epoch;
    isr = isr;
    zk_version = zk_version;
    replicas = replicas;
    is_new = false;
  })

unfoldable pub decode_live_leader : Decode LiveLeader
decode_live_leader = do
  id ← Decoder.int32
  host ← Decoder.string
  port ← Decoder.int32
  pure (record { id = id; host = host; port = port })

unfoldable pub decode : ℤ → Decode LeaderAndIsrRequest
unfolding decode_state decode_live_leader
decode version = do
  controller_id ← Decoder.int32
  controller_epoch ← Decoder.int32
  partition_states ← array decode_state
  live_leaders ← array decode_live_leader
  pure (record {
    api_version = version;
    controller_id = controller_id;
    controller_epoch = controller_epoch;
    partition_states = partition_states;
    live_leaders = live_leaders;
  })
