-- ===== src/Protocol/Message/LeaderAndIsr/RoundTrip.antt =====
-- LeaderAndISRRequest: Decode reads back what Encode wrote.
use jocko.Common.{ℕ, ◌≤◌, ◌^◌, ◌≡◌, sym, subst, Bool, true, false, arith}
use jocko.Common.{List, length, All}
use jocko.Common.Int.{ℤ, pos, InWord}
use jocko.Common.{drop, take}
use jocko.Protocol.Outcome.{ok}
use jocko.Protocol.Encoder
use jocko.Protocol.Encoder.{PutOp, max_int16, max_int32}
use jocko.Protocol.Encoder.Appends.{IsPlain}
use jocko.Protocol.Codec.{wires, decode-encode, IsPlain-append, IsPlain-each}
use jocko.Protocol.Codec.Arrays.{
  put_array, put_array-Reads, Reads-ops, All-map, string_first, int32_first,
}
use jocko.Protocol.Decoder.{new_decoder, skip}
use jocko.Protocol.Decoder.Reads.{Reads, Reads-pure, Reads-bind, int32-Reads, Reads-then, Reads-map}
use jocko.Protocol.Decoder.Values.{string-Reads}
use jocko.Protocol.Decoder.Arrays.{array, int32_array-Reads}
use jocko.Protocol.Fields.{at_least}
use jocko.Protocol.Message.LeaderAndIsr.{
  PartitionState, LiveLeader, LeaderAndIsrRequest, is_new_flag, encode_state, encode_live_leader,
  encode, decode_state, decode_live_leader, decode,
}

abbrev pub Int32 : ℤ → Type 0
Int32 z = InWord (2 ^ 31) z

-- The fields are Go values of their types, and the flag that Decode does not read is not set.
pub record IsValidState (p : PartitionState) : Type 0 where
  pub topic : length p.topic ≤ max_int16
  pub partition : Int32 p.partition
  pub controller_epoch : Int32 p.controller_epoch
  pub leader : Int32 p.leader
  pub leader_epoch : Int32 p.leader_epoch
  pub isr_length : length p.isr ≤ max_int32
  pub isr : All Int32 p.isr
  pub zk_version : Int32 p.zk_version
  pub replicas_length : length p.replicas ≤ max_int32
  pub replicas : All Int32 p.replicas
  pub is_new : p.is_new ≡ false

pub record IsValidLeader (l : LiveLeader) : Type 0 where
  pub id : Int32 l.id
  pub host : length l.host ≤ max_int16
  pub port : Int32 l.port

pub record IsValid (r : LeaderAndIsrRequest) : Type 0 where
  pub version : at_least 1 r.api_version ≡ false
  pub controller_id : Int32 r.controller_id
  pub controller_epoch : Int32 r.controller_epoch
  pub states_length : length r.partition_states ≤ 131070
  pub states : All IsValidState r.partition_states
  pub leaders_length : length r.live_leaders ≤ 131070
  pub leaders : All IsValidLeader r.live_leaders

ruleset reads = (Reads-pure, Reads-bind, int32-Reads, string-Reads, int32_array-Reads)

live_leader-Reads :
    (l : LiveLeader) → IsValidLeader l → Reads decode_live_leader (wires (encode_live_leader l)) l
unfolding encode_live_leader decode_live_leader
live_leader-Reads l h = search (reads, h.id, h.host, h.port)

state-Reads :
    (version : ℤ) (p : PartitionState)
    → at_least 1 version ≡ false
    → IsValidState p
    → Reads decode_state (wires (encode_state version p)) p
unfolding encode_state decode_state
state-Reads version p old h = rw old (
    subst
      (λ (b : Bool). Reads decode_state (wires (encode_state (pos 0) p)) (record p { is_new = b }))
      (sym h.is_new)
      (Reads-then _ (string-Reads p.topic h.topic) (
        Reads-then _ (int32-Reads p.partition h.partition) (
          Reads-then _ (int32-Reads p.controller_epoch h.controller_epoch) (
            Reads-then _ (int32-Reads p.leader h.leader) (
              Reads-then _ (int32-Reads p.leader_epoch h.leader_epoch) (
                Reads-then _ (int32_array-Reads p.isr h.isr_length h.isr) (
                  Reads-then _ (int32-Reads p.zk_version h.zk_version) (
                    Reads-then _ (int32_array-Reads p.replicas h.replicas_length h.replicas)
                      (Reads-pure _))))))))))

state_bytes : (version : ℤ) (p : PartitionState) → 1 ≤ length (wires (encode_state version p))
unfolding encode_state
state_bytes version p = string_first p.topic (drop 1 (encode_state version p))

leader_bytes : (l : LiveLeader) → 1 ≤ length (wires (encode_live_leader l))
unfolding encode_live_leader
leader_bytes l = int32_first l.id (drop 1 (encode_live_leader l))

request-Reads :
    (r : LeaderAndIsrRequest) → IsValid r → Reads (decode r.api_version) (wires (encode r)) r
unfolding encode decode
request-Reads r h =
    let put_states = put_array (encode_state r.api_version) r.partition_states in
    let states : Reads (array decode_state) (wires put_states) r.partition_states =
      put_array-Reads decode_state (encode_state r.api_version) r.partition_states
        (state_bytes r.api_version) h.states_length
        (All-map IsValidState _ r.partition_states (λ p v. state-Reads r.api_version p h.version v)
          h.states) in
    let leaders : Reads (array decode_live_leader)
        (wires (put_array encode_live_leader r.live_leaders)) r.live_leaders =
      put_array-Reads decode_live_leader encode_live_leader r.live_leaders leader_bytes
        h.leaders_length (All-map IsValidLeader _ r.live_leaders live_leader-Reads h.leaders) in
    Reads-then _ (int32-Reads r.controller_id h.controller_id) (
      Reads-then _ (int32-Reads r.controller_epoch h.controller_epoch)
        (Reads-ops _ _ put_states _ _ _ states (Reads-map _ _ _ _ leaders)))

IsPlain-state : (version : ℤ) (p : PartitionState) → All IsPlain (encode_state version p)
unfolding encode_state
IsPlain-state version p =
    IsPlain-append (take 8 (encode_state version p)) _ (omega arith)
      (IsPlain-flag (at_least 1 version) p.is_new)
  where
    IsPlain-flag : (old new : Bool) → All IsPlain (is_new_flag old new)
    IsPlain-flag true new = omega arith
    IsPlain-flag false new = tt

IsPlain-live_leader : (l : LiveLeader) → All IsPlain (encode_live_leader l)
unfolding encode_live_leader
IsPlain-live_leader l = omega arith

IsPlain-encode : (r : LeaderAndIsrRequest) → All IsPlain (encode r)
unfolding encode
IsPlain-encode r = (
  tt,
  (
    tt,
    IsPlain-append (put_array (encode_state r.api_version) r.partition_states)
        (put_array encode_live_leader r.live_leaders)
        (
          tt,
          IsPlain-each (encode_state r.api_version) r.partition_states
              (IsPlain-state r.api_version),
        )
        (tt, IsPlain-each encode_live_leader r.live_leaders IsPlain-live_leader),
  ),
)

-- Below version 1, a LeaderAndISRRequest whose fields are in the range of their types, whose arrays
-- have at most 131070 items and whose IsNew flags are not set is read back by Decode, to the end of
-- the bytes, whenever Encode succeeds on it.
pub decode-encode_request :
    (crc32 : List ℕ → ℕ) (r : LeaderAndIsrRequest) (bs : List ℕ)
    → IsValid r
    → Encoder.encode crc32 (encode r) ≡ ok bs
    → decode r.api_version (new_decoder bs) ≡ (ok r, skip (length bs) (new_decoder bs))
decode-encode_request crc32 r bs h e =
    decode-encode crc32 (encode r) (decode r.api_version) r bs (IsPlain-encode r)
      (request-Reads r h) e
