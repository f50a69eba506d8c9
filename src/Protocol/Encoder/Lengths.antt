-- ===== src/Protocol/Encoder/Lengths.antt =====
-- The first pass: LenEncoder adds the length of what each call appends to the wire.
use jocko.Common.{ℕ, ◌+◌, ◌-◌, ◌*◌, ◌^◌, ◌≡◌, true, false, arith}
use jocko.Common.{none, some, List, [], ◌∷◌, ◌++◌, length, Str}
use jocko.Common.{length-append}
use jocko.Common.Int.{ℤ, unsigned}
use jocko.Protocol.Binary.{be_bytes, length-be_bytes}
use jocko.Protocol.Outcome.{ok, ◌>>=◌, >>=-eq-ok}
use jocko.Protocol.Encoder.{
  PutOp, bool, int8, int16, int32, int64, array_length, raw_bytes, bytes, string, nullable_string,
  string_array, int32_array, int64_array, push, pop, LenEncoder, add_len, len_string, len_strings,
  len_array_length, len_raw_bytes, len_put,
}
use jocko.Protocol.Encoder.Writer.{wire, wire_string, wire_strings, wire_ints}

-- The length pass adds what the call appends.
len_string-eq :
    (s : Str) (e e' : LenEncoder) → len_string s e ≡ ok e' → e'.len ≡ e.len + length (wire_string s)
unfolding len_string
len_string-eq s e e' h =
    ground (arith, length-append (be_bytes 2 (length s)) s, length-be_bytes 2 (length s))

len_strings-eq :
    (ss : List Str) (e e' : LenEncoder)
    → len_strings ss e ≡ ok e'
    → e'.len ≡ e.len + length (wire_strings ss)
unfolding len_strings
len_strings-eq [] e e' h = ground arith
len_strings-eq (s ∷ ss) e e' h =
    let (f, first, rest) = >>=-eq-ok (len_string s e) (len_strings ss) h in
    omega (
      arith,
      len_string-eq s e f first,
      len_strings-eq ss f e' rest,
      length-append (wire_string s) (wire_strings ss),
    )

length-wire_ints : (n half : ℕ) (vs : List ℤ) → length (wire_ints n half vs) ≡ n * length vs
length-wire_ints n half [] = omega arith
length-wire_ints n half (v ∷ vs) = grind (
  arith,
  length-append (be_bytes n (unsigned half v)) (wire_ints n half vs),
  length-be_bytes n (unsigned half v),
  length-wire_ints n half vs,
)

len_array_length-eq :
    (n : ℕ) (e e' : LenEncoder) → len_array_length n e ≡ ok e' → e'.len ≡ e.len + 4
unfolding len_array_length
len_array_length-eq n e e' h = ground arith

len_raw_bytes-eq :
    (bs : List ℕ) (e e' : LenEncoder) → len_raw_bytes bs e ≡ ok e' → e'.len ≡ e.len + length bs
unfolding len_raw_bytes
len_raw_bytes-eq bs e e' h = ground arith

len_ints-eq :
    (n half : ℕ) (vs : List ℤ) (e e' : LenEncoder)
    → (len_array_length (length vs) e >>= λ f. ok (add_len f (n * length vs))) ≡ ok e'
    → e'.len ≡ e.len + length (be_bytes 4 (length vs) ++ wire_ints n half vs)
len_ints-eq n half vs e e' h =
    let (f, first, rest) = >>=-eq-ok (len_array_length (length vs) e) _ h in
    ground (
      arith,
      len_array_length-eq (length vs) e f first,
      length-append (be_bytes 4 (length vs)) (wire_ints n half vs),
      length-be_bytes 4 (length vs),
      length-wire_ints n half vs,
    )

pub len_put-eq :
    (op : PutOp) (e e' : LenEncoder) → len_put op e ≡ ok e' → e'.len ≡ e.len + length (wire op)
unfolding len_put
len_put-eq (bool false) e e' h = ground arith
len_put-eq (bool true) e e' h = ground arith
len_put-eq (int8 v) e e' h = ground (arith, length-be_bytes 1 (unsigned (2 ^ 7) v))
len_put-eq (int16 v) e e' h = ground (arith, length-be_bytes 2 (unsigned (2 ^ 15) v))
len_put-eq (int32 v) e e' h = ground (arith, length-be_bytes 4 (unsigned (2 ^ 31) v))
len_put-eq (int64 v) e e' h = ground (arith, length-be_bytes 8 (unsigned (2 ^ 63) v))
len_put-eq (array_length n) e e' h =
    omega (arith, len_array_length-eq n e e' h, length-be_bytes 4 n)
len_put-eq (raw_bytes bs) e e' h = len_raw_bytes-eq bs e e' h
len_put-eq (bytes none) e e' h = ground (arith, length-be_bytes 4 (2 ^ 32 - 1))
len_put-eq (bytes (some bs)) e e' h = omega (
  arith,
  len_raw_bytes-eq bs _ e' h,
  length-append (be_bytes 4 (length bs)) bs,
  length-be_bytes 4 (length bs),
)
len_put-eq (string s) e e' h = len_string-eq s e e' h
len_put-eq (nullable_string none) e e' h = ground (arith, length-be_bytes 2 (2 ^ 16 - 1))
len_put-eq (nullable_string (some s)) e e' h = len_string-eq s e e' h
len_put-eq (string_array ss) e e' h =
    let (f, first, rest) = >>=-eq-ok (len_array_length (length ss) e) (len_strings ss) h in
    omega (
      arith,
      len_array_length-eq (length ss) e f first,
      len_strings-eq ss f e' rest,
      length-append (be_bytes 4 (length ss)) (wire_strings ss),
      length-be_bytes 4 (length ss),
    )
len_put-eq (int32_array vs) e e' h = len_ints-eq 4 (2 ^ 31) vs e e' h
len_put-eq (int64_array vs) e e' h = len_ints-eq 8 (2 ^ 63) vs e e' h
len_put-eq (push k) e e' h = ground arith
len_put-eq pop e e' h = ground arith
