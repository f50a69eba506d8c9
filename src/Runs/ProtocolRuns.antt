-- ===== src/Runs/ProtocolRuns.antt =====
-- Runs of the wire protocol.
use jocko.Common.{ℕ, ◌<◌, false, List, [], ◌∷◌, length, codes, ◌≡◌, ◌≢◌, ◌↔◌, refl, arith}
use jocko.Common.Int.{pos, negsuc, unsigned}
use jocko.Protocol.Outcome.{ok, panic, ◌>>=◌}
use jocko.Protocol.Encoder
use jocko.Protocol.Encoder.{
  PutOp, PushKind, crc_field, size_field, push, pop, int8, int32, string, len_run, len_put,
  len_array_length, len_raw_bytes, len_string, len_strings, byte_run, byte_put, put_uint, put_copy,
  byte_string, byte_strings, byte_ints, byte_bool, byte_pop, field_value,
}
use jocko.Protocol.Binary.{be_bytes, write_at}
use jocko.Protocol.Encoder.Writer.{write_run, no_bytes}
use jocko.Protocol.Encoder.Agree.{encode-eq-write_run}
use jocko.Protocol.Decoder
use jocko.Protocol.Decoder.{ByteDecoder, new_decoder, remaining, skip}
use jocko.Protocol.Decoder.Bounds.{IsBounded, decoder-IsBounded}
use jocko.Protocol.Decoder.Panics.{panics_exactly}
use jocko.Protocol.Message.LeaderAndIsr.{
  PartitionState, LeaderAndIsrRequest, encode, decode, encode_state, encode_live_leader,
}
use jocko.Protocol.Message.LeaderAndIsr.RoundTrip.{IsValid, decode-encode_request}

-- A checksum for the runs: the number of the bytes.
abbrev checksum : List ℕ → ℕ
checksum bs = length bs

abbrev framed : List PutOp
framed = push size_field ∷ int32 (pos 7) ∷ push crc_field ∷ string (codes "ab") ∷ pop ∷ pop ∷ []

abbrev state_0 : PartitionState
state_0 = record {
  topic = codes "logs";
  partition = pos 0;
  controller_epoch = pos 2;
  leader = pos 1;
  leader_epoch = pos 3;
  isr = pos 1 ∷ pos 2 ∷ [];
  zk_version = negsuc 0;
  replicas = pos 1 ∷ pos 2 ∷ pos 3 ∷ [];
  is_new = false;
}

abbrev request : LeaderAndIsrRequest
request = record {
  api_version = pos 0;
  controller_id = pos 1;
  controller_epoch = pos 2;
  partition_states = state_0 ∷ [];
  live_leaders = record { id = pos 1; host = codes "h"; port = pos 9092 } ∷ [];
}

abbrev two_bytes : ByteDecoder
two_bytes = record { b = 1 ∷ 2 ∷ []; off = 1; stack = [] }

abbrev request_bytes : List ℕ
request_bytes =
    0 ∷ 0 ∷ 0 ∷ 1 ∷ 0 ∷ 0 ∷ 0 ∷ 2 ∷ 0 ∷ 0 ∷ 0 ∷ 1 ∷ 0 ∷ 4 ∷ 108 ∷ 111 ∷ 103 ∷ 115 ∷ 0 ∷ 0 ∷ 0 ∷ 0
    ∷ 0 ∷ 0 ∷ 0 ∷ 2 ∷ 0 ∷ 0 ∷ 0 ∷ 1 ∷ 0 ∷ 0 ∷ 0 ∷ 3 ∷ 0 ∷ 0 ∷ 0 ∷ 2 ∷ 0 ∷ 0 ∷ 0 ∷ 1 ∷ 0 ∷ 0 ∷ 0 ∷ 2
    ∷ 255 ∷ 255 ∷ 255 ∷ 255 ∷ 0 ∷ 0 ∷ 0 ∷ 3 ∷ 0 ∷ 0 ∷ 0 ∷ 1 ∷ 0 ∷ 0 ∷ 0 ∷ 2 ∷ 0 ∷ 0 ∷ 0 ∷ 3 ∷ 0 ∷ 0
    ∷ 0 ∷ 1 ∷ 0 ∷ 0 ∷ 0 ∷ 1 ∷ 0 ∷ 1 ∷ 104 ∷ 0 ∷ 0 ∷ 35 ∷ 132 ∷ []

request-encode_test : Encoder.encode checksum (encode request) ≡ ok request_bytes
unfolding Encoder.encode len_run len_put len_array_length len_raw_bytes len_string len_strings
    byte_run byte_put put_uint put_copy byte_string byte_strings byte_ints byte_bool byte_pop
    field_value be_bytes write_at unsigned encode encode_state encode_live_leader
request-encode_test = refl

request-IsValid : IsValid request
request-IsValid = record {
  version = refl;
  controller_id = omega arith;
  controller_epoch = omega arith;
  states_length = omega arith;
  states = (
    record {
      topic = omega arith;
      partition = omega arith;
      controller_epoch = omega arith;
      leader = omega arith;
      leader_epoch = omega arith;
      isr_length = omega arith;
      isr = omega arith;
      zk_version = omega arith;
      replicas_length = omega arith;
      replicas = omega arith;
      is_new = refl;
    },
    tt,
  );
  leaders_length = omega arith;
  leaders = (record { id = omega arith; host = omega arith; port = omega arith }, tt);
}

decode-encode_request_example :
    decode request.api_version (new_decoder request_bytes)
    ≡ (ok request, skip (length request_bytes) (new_decoder request_bytes))
decode-encode_request_example =
    decode-encode_request checksum request request_bytes request-IsValid request-encode_test

encode-eq-write_run_example : Encoder.encode checksum framed ≡ (
    len_run framed (record { len = 0 }) >>= λ _.
    write_run checksum framed no_bytes >>= λ w. ok w.out)
encode-eq-write_run_example = encode-eq-write_run checksum framed

decoder-IsBounded_example :
    IsBounded Decoder.bool
    × IsBounded Decoder.int8
    × IsBounded Decoder.int16
    × IsBounded Decoder.int32
    × IsBounded Decoder.int64
    × IsBounded Decoder.array_length
    × IsBounded Decoder.bytes
    × IsBounded Decoder.string
    × IsBounded Decoder.nullable_string
    × IsBounded Decoder.int32_array
    × IsBounded Decoder.int64_array
    × IsBounded Decoder.string_array
    × IsBounded (Decoder.push size_field)
    × IsBounded (Decoder.pop checksum)
decoder-IsBounded_example = decoder-IsBounded checksum size_field

panics_exactly_example :
    ((Decoder.int32 two_bytes).0 ≢ panic)
    × ((Decoder.int64 two_bytes).0 ≢ panic)
    × ((Decoder.array_length two_bytes).0 ≢ panic)
    × ((Decoder.bytes two_bytes).0 ≢ panic)
    × (((Decoder.int8 two_bytes).0 ≡ panic) ↔ (remaining two_bytes < 1))
    × (((Decoder.int16 two_bytes).0 ≡ panic) ↔ (remaining two_bytes < 2))
    × (((Decoder.string two_bytes).0 ≡ panic) ↔ (remaining two_bytes < 2))
panics_exactly_example = panics_exactly two_bytes (omega arith)
