-- ===== src/Protocol/Encoder/Writer.antt =====
-- The wire format: what the calls of a PacketEncoder mean, with no buffer and no offset. A writer
-- appends, and a field that is open is patched when it is closed.
use jocko.Common.{ℕ, ◌-◌, ◌^◌, true, false, none, some}
use jocko.Common.{List, [], ◌∷◌, ◌++◌, length, Str}
use jocko.Common.Int.{ℤ, unsigned}
use jocko.Protocol.Binary.{be_bytes, write_at}
use jocko.Protocol.Outcome.{Outcome, ok, panic, ◌>>=◌}
use jocko.Protocol.Encoder.{
  PushKind, PutOp, bool, int8, int16, int32, int64, array_length, raw_bytes, bytes, string,
  nullable_string, string_array, int32_array, int64_array, push, pop, field_value,
}

abbrev pub wire_string : Str → List ℕ
wire_string s = be_bytes 2 (length s) ++ s

abbrev pub wire_strings : List Str → List ℕ
wire_strings [] = []
wire_strings (s ∷ ss) = wire_string s ++ wire_strings ss

abbrev pub wire_ints : ℕ → ℕ → List ℤ → List ℕ
wire_ints w half [] = []
wire_ints w half (v ∷ vs) = be_bytes w (unsigned half v) ++ wire_ints w half vs

-- The bytes that a call appends; an open field is four zero bytes.
abbrev pub wire : PutOp → List ℕ
wire (bool false) = 0 ∷ []
wire (bool true) = 1 ∷ []
wire (int8 v) = be_bytes 1 (unsigned (2 ^ 7) v)
wire (int16 v) = be_bytes 2 (unsigned (2 ^ 15) v)
wire (int32 v) = be_bytes 4 (unsigned (2 ^ 31) v)
wire (int64 v) = be_bytes 8 (unsigned (2 ^ 63) v)
wire (array_length n) = be_bytes 4 n
wire (raw_bytes bs) = bs
wire (bytes none) = be_bytes 4 (2 ^ 32 - 1)
wire (bytes (some bs)) = be_bytes 4 (length bs) ++ bs
wire (string s) = wire_string s
wire (nullable_string none) = be_bytes 2 (2 ^ 16 - 1)
wire (nullable_string (some s)) = wire_string s
wire (string_array ss) = be_bytes 4 (length ss) ++ wire_strings ss
wire (int32_array vs) = be_bytes 4 (length vs) ++ wire_ints 4 (2 ^ 31) vs
wire (int64_array vs) = be_bytes 4 (length vs) ++ wire_ints 8 (2 ^ 63) vs
wire (push k) = 0 ∷ 0 ∷ 0 ∷ 0 ∷ []
wire pop = []

pub record Writer : Type 0 where
  pub out : List ℕ
  pub open_fields : List (PushKind × ℕ)

abbrev pub no_bytes : Writer
no_bytes = record { out = []; open_fields = [] }

module _ (crc32 : List ℕ → ℕ) where
  unfoldable pub close_field : List (PushKind × ℕ) → List ℕ → Outcome Writer
  close_field [] out = panic
  close_field ((k, start) ∷ rest) out = ok (record {
    out = write_at out start (be_bytes 4 (field_value crc32 k start (length out) out));
    open_fields = rest;
  })

  unfoldable pub write : PutOp → Writer → Outcome Writer
  unfolding close_field
  write (push k) w =
      ok (record { out = w.out ++ wire (push k); open_fields = (k, length w.out) ∷ w.open_fields })
  write pop w = close_field w.open_fields w.out
  write op w = ok (record w { out = w.out ++ wire op })

  unfoldable pub write_run : List PutOp → Writer → Outcome Writer
  write_run [] w = ok w
  write_run (op ∷ ops) w = do w' ← write op w; write_run ops w'
