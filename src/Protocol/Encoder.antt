-- ===== src/Protocol/Encoder.antt =====
-- protocol/encoder.go, size_field.go and crc_field.go: the two encoders behind the interface
-- PacketEncoder, and `Encode`, which runs a message through both.
-- A message's Encode method only calls the interface and hands an error on, so it is modelled by
-- the list of the calls that it makes; an encoder runs the list and stops at the first error.
pub mod Writer
pub mod Appends
mod Lengths
pub mod Agree
use jocko.Common.{
  ℕ, zero, suc, ◌+◌, ◌-◌, ◌*◌, ◌%◌, ◌^◌, Bool, true, false, ◌&&◌, Option, none, some,
}
use jocko.Common.{List, [], ◌∷◌, ◌++◌, length, take, drop, replicate, ltb, leb, Str, if◌then◌else◌}
use jocko.Common.Int.{ℤ, unsigned}
use jocko.Protocol.Binary.{be_bytes, write_at}
use jocko.Protocol.Outcome.{
  CodecError, Outcome, ok, err, panic, ◌>>=◌, invalid_string_length, invalid_array_length,
  invalid_byte_slice_length,
}

-- The two implementations of PushEncoder.
pub data PushKind : Type 0 where
  size_field crc_field : PushKind

-- One constructor for each method of PacketEncoder; a nil slice or string pointer is `none`.
pub data PutOp : Type 0 where
  bool : Bool → PutOp
  int8 int16 int32 int64 : ℤ → PutOp
  array_length : ℕ → PutOp
  raw_bytes : List ℕ → PutOp
  bytes : Option (List ℕ) → PutOp
  string : Str → PutOp
  nullable_string : Option Str → PutOp
  string_array : List Str → PutOp
  int32_array int64_array : List ℤ → PutOp
  push : PushKind → PutOp
  pop : PutOp

abbrev pub max_int16 : ℕ
max_int16 = 32767

abbrev pub max_int32 : ℕ
max_int32 = 2147483647

-- LenEncoder; its stack is never used.
pub record LenEncoder : Type 0 where
  pub len : ℕ

abbrev pub add_len : LenEncoder → ℕ → LenEncoder
add_len e n = record { len = e.len + n }

unfoldable pub len_array_length : ℕ → LenEncoder → Outcome LenEncoder
len_array_length n e = if ltb max_int32 n then err invalid_array_length else ok (add_len e 4)

unfoldable pub len_raw_bytes : List ℕ → LenEncoder → Outcome LenEncoder
len_raw_bytes bs e =
    if ltb max_int32 (length bs) then err invalid_byte_slice_length else ok (add_len e (length bs))

unfoldable pub len_string : Str → LenEncoder → Outcome LenEncoder
len_string s e =
    if ltb max_int16 (length s)
    then err invalid_string_length
    else ok (add_len (add_len e 2) (length s))

-- The loop of PutStringArray.
unfoldable pub len_strings : List Str → LenEncoder → Outcome LenEncoder
len_strings [] e = ok e
len_strings (s ∷ ss) e = do e' ← len_string s e; len_strings ss e'

-- The methods of LenEncoder.
unfoldable pub len_put : PutOp → LenEncoder → Outcome LenEncoder
unfolding len_array_length len_raw_bytes len_string len_strings
len_put (bool b) e = ok (add_len e 1)
len_put (int8 v) e = ok (add_len e 1)
len_put (int16 v) e = ok (add_len e 2)
len_put (int32 v) e = ok (add_len e 4)
len_put (int64 v) e = ok (add_len e 8)
len_put (array_length n) e = len_array_length n e
len_put (raw_bytes bs) e = len_raw_bytes bs e
len_put (bytes none) e = ok (add_len e 4)
len_put (bytes (some bs)) e = len_raw_bytes bs (add_len e 4)
len_put (string s) e = len_string s e
len_put (nullable_string none) e = ok (add_len e 2)
len_put (nullable_string (some s)) e = len_string s e
len_put (string_array ss) e = do e' ← len_array_length (length ss) e; len_strings ss e'
len_put (int32_array vs) e = do e' ← len_array_length (length vs) e; ok (add_len e' (4 * length vs))
len_put (int64_array vs) e = do e' ← len_array_length (length vs) e; ok (add_len e' (8 * length vs))
len_put (push k) e = ok (add_len e 4)
len_put pop e = ok e

unfoldable pub len_run : List PutOp → LenEncoder → Outcome LenEncoder
len_run [] e = ok e
len_run (op ∷ ops) e = do e' ← len_put op e; len_run ops e'

-- ByteEncoder: the buffer, the place of the next write, and the open fields with the offsets
-- that SaveOffset stored in them.
pub record ByteEncoder : Type 0 where
  pub b : List ℕ
  pub off : ℕ
  pub stack : List (PushKind × ℕ)

-- Encoding.PutUintN(e.b[e.off:], v), which panics if the bytes left do not hold the number.
unfoldable pub put_uint : ℕ → ℕ → ByteEncoder → Outcome ByteEncoder
put_uint w v e =
    if leb (e.off + w) (length e.b)
    then ok (record e { b = write_at e.b e.off (be_bytes w v); off = e.off + w })
    else panic

-- copy(e.b[e.off:], bs) and e.off += len(bs); the slice expression panics beyond the buffer.
unfoldable pub put_copy : List ℕ → ByteEncoder → Outcome ByteEncoder
put_copy bs e =
    if leb e.off (length e.b)
    then ok (record e { b = write_at e.b e.off bs; off = e.off + length bs })
    else panic

-- The length is cut to an int16 or int32 and written as its pattern, which `be_bytes` does.
unfoldable pub byte_string : Str → ByteEncoder → Outcome ByteEncoder
byte_string s e = do e' ← put_uint 2 (length s) e; put_copy s e'

unfoldable pub byte_strings : List Str → ByteEncoder → Outcome ByteEncoder
byte_strings [] e = ok e
byte_strings (s ∷ ss) e = do e' ← byte_string s e; byte_strings ss e'

-- PutInt32 or PutInt64 of each value; `half` is the weight of the sign bit.
unfoldable pub byte_ints : ℕ → ℕ → List ℤ → ByteEncoder → Outcome ByteEncoder
byte_ints w half [] e = ok e
byte_ints w half (v ∷ vs) e = do e' ← put_uint w (unsigned half v) e; byte_ints w half vs e'

-- PutBool skips the byte of `false`, and an index beyond the buffer panics.
unfoldable pub byte_bool : Bool → ByteEncoder → Outcome ByteEncoder
byte_bool false e = ok (record e { off = e.off + 1 })
byte_bool true e =
    if ltb e.off (length e.b)
    then ok (record e { b = write_at e.b e.off (1 ∷ []); off = e.off + 1 })
    else panic

-- The slice expressions of the two Fill methods stay within the buffer.
abbrev pub fill_in_range : PushKind → ℕ → ℕ → List ℕ → Bool
fill_in_range size_field start off b = leb (start + 4) (length b)
fill_in_range crc_field start off b = leb (start + 4) off && leb off (length b)

-- The checksum of the standard library's crc32.ChecksumIEEE is a parameter.
module _ (crc32 : List ℕ → ℕ) where
  -- What Fill of SizeField and of CRCField write at `start` when `off` bytes are written.
  unfoldable pub field_value : PushKind → ℕ → ℕ → List ℕ → ℕ
  field_value size_field start off b = (off + 2 ^ 32 - (start + 4)) % 2 ^ 32
  field_value crc_field start off b = crc32 (drop (start + 4) (take off b))

  -- Pop takes the last open field off the stack, and panics when there is none.
  unfoldable pub byte_pop : List (PushKind × ℕ) → ByteEncoder → Outcome ByteEncoder
  byte_pop [] e = panic
  byte_pop ((k, start) ∷ rest) e =
      if fill_in_range k start e.off e.b
      then ok (record e {
        b = write_at e.b start (be_bytes 4 (field_value k start e.off e.b));
        stack = rest;
      })
      else panic

  -- The methods of ByteEncoder.
  unfoldable pub byte_put : PutOp → ByteEncoder → Outcome ByteEncoder
  unfolding put_uint put_copy byte_string byte_strings byte_ints byte_bool byte_pop
  byte_put (bool v) e = byte_bool v e
  byte_put (int8 v) e = put_uint 1 (unsigned (2 ^ 7) v) e
  byte_put (int16 v) e = put_uint 2 (unsigned (2 ^ 15) v) e
  byte_put (int32 v) e = put_uint 4 (unsigned (2 ^ 31) v) e
  byte_put (int64 v) e = put_uint 8 (unsigned (2 ^ 63) v) e
  byte_put (array_length n) e = put_uint 4 n e
  byte_put (raw_bytes bs) e = put_copy bs e
  byte_put (bytes none) e = put_uint 4 (2 ^ 32 - 1) e
  byte_put (bytes (some bs)) e = do e' ← put_uint 4 (length bs) e; put_copy bs e'
  byte_put (string s) e = byte_string s e
  byte_put (nullable_string none) e = put_uint 2 (2 ^ 16 - 1) e
  byte_put (nullable_string (some s)) e = byte_string s e
  byte_put (string_array ss) e = do e' ← put_uint 4 (length ss) e; byte_strings ss e'
  byte_put (int32_array vs) e = do e' ← put_uint 4 (length vs) e; byte_ints 4 (2 ^ 31) vs e'
  byte_put (int64_array vs) e = do e' ← put_uint 4 (length vs) e; byte_ints 8 (2 ^ 63) vs e'
  byte_put (push k) e = ok (record e { off = e.off + 4; stack = (k, e.off) ∷ e.stack })
  byte_put pop e = byte_pop e.stack e

  unfoldable pub byte_run : List PutOp → ByteEncoder → Outcome ByteEncoder
  byte_run [] e = ok e
  byte_run (op ∷ ops) e = do e' ← byte_put op e; byte_run ops e'

  -- Encode: the length first, then a buffer of just that length.
  unfoldable pub encode : List PutOp → Outcome (List ℕ)
  encode ops = do
    l ← len_run ops (record { len = 0 })
    e ← byte_run ops (record { b = replicate l.len 0; off = 0; stack = [] })
    ok e.b
