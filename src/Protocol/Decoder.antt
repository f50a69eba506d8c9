-- ===== src/Protocol/Decoder.antt =====
-- protocol/decoder.go and the Check methods of size_field.go and crc_field.go: ByteDecoder, whose
-- methods read a byte slice from an offset. A method returns its value or error and the decoder
-- that it leaves; the indexing of the slice may panic.
pub mod Reads
pub mod Values
pub mod Arrays
pub mod Bounds
pub mod Panics
use jocko.Common.{
  ℕ, zero, suc, ◌+◌, ◌-◌, ◌*◌, ◌%◌, ◌^◌, Bool, true, false, ◌&&◌, Option, none, some,
}
use jocko.Common.{List, [], ◌∷◌, length, take, drop, ltb, leb, ◌==◌, Str, if◌then◌else◌}
use jocko.Common.Int.{ℤ, pos, negsuc, signed}
use jocko.Protocol.Binary.{of_be}
use jocko.Protocol.Outcome.{
  CodecError, Outcome, ok, err, panic, insufficient_data, invalid_string_length,
  invalid_array_length, invalid_byte_slice_length, length_field_invalid, crc_mismatch,
}
use jocko.Protocol.Encoder.{PushKind, size_field, crc_field}

pub record ByteDecoder : Type 0 where
  pub b : List ℕ
  pub off : ℕ
  pub stack : List (PushKind × ℕ)

-- NewDecoder
abbrev pub new_decoder : List ℕ → ByteDecoder
new_decoder b = record { b = b; off = 0; stack = [] }

-- A method of the decoder.
abbrev pub Decode {ℓ} : Type ℓ → Type ℓ
Decode A = ByteDecoder → Outcome A × ByteDecoder

abbrev pub continue {ℓ κ} : {A : Type ℓ} {B : Type κ} → Outcome A → (A → Decode B) → Decode B
continue (ok a) f d = f a d
continue (err e) f d = (err e, d)
continue panic f d = (panic, d)

-- `if err != nil { return err }` after each call.
infixl 5 ◌>>=◌ ◌>>◌
abbrev pub ◌>>=◌ {ℓ κ} : {A : Type ℓ} {B : Type κ} → Decode A → (A → Decode B) → Decode B
◌>>=◌ m f d = continue (m d).0 f (m d).1

abbrev pub ◌>>◌ {ℓ κ} : {A : Type ℓ} {B : Type κ} → Decode A → Decode B → Decode B
m >> k = m >>= λ _. k

abbrev pub pure {ℓ} : {A : Type ℓ} → A → Decode A
pure a d = (ok a, d)

abbrev pub fail {ℓ} : {A : Type ℓ} → CodecError → Decode A
fail e d = (err e, d)

-- The offset never passes the end of the slice (Decoder.Bounds), so the difference is exact.
abbrev pub remaining : ByteDecoder → ℕ
remaining d = length d.b - d.off

-- d.off = len(d.b), before an error is returned.
abbrev pub to_end : ByteDecoder → ByteDecoder
to_end d = record d { off = length d.b }

abbrev pub skip : ℕ → ByteDecoder → ByteDecoder
skip n d = record d { off = d.off + n }

abbrev pub at_offset : ByteDecoder → ℕ → List ℕ
at_offset d n = take n (drop d.off d.b)

-- Encoding.UintN(d.b[d.off:]) and d.off += N, which panics when fewer bytes are left.
unfoldable pub uint : ℕ → Decode ℕ
uint w d =
    if leb (d.off + w) (length d.b) then (ok (of_be (at_offset d w)), skip w d) else (panic, d)

-- The same under the test of Int32, Int64 and ArrayLength.
unfoldable pub checked_uint : ℕ → Decode ℕ
unfolding uint
checked_uint w d = if ltb (remaining d) w then (err insufficient_data, to_end d) else uint w d

unfoldable pub int8 : Decode ℤ
unfolding uint
int8 = uint 1 >>= λ v. pure (signed (2 ^ 7) v)

abbrev pub is_one : ℤ → Bool
is_one (pos n) = n == 1
is_one (negsuc n) = false

unfoldable pub bool : Decode Bool
unfolding int8
bool = int8 >>= λ i. pure (is_one i)

unfoldable pub int16 : Decode ℤ
unfolding uint
int16 = uint 2 >>= λ v. pure (signed (2 ^ 15) v)

unfoldable pub int32 : Decode ℤ
unfolding checked_uint
int32 = checked_uint 4 >>= λ v. pure (signed (2 ^ 31) v)

unfoldable pub int64 : Decode ℤ
unfolding checked_uint
int64 = checked_uint 8 >>= λ v. pure (signed (2 ^ 63) v)

-- The two tests on an array length; `int` has 64 bits, so the number is not negative.
unfoldable pub bounded_length : ℕ → Decode ℕ
bounded_length n d =
    if ltb (remaining d) n
    then (err insufficient_data, to_end d)
    else if ltb 131070 n
    then (err invalid_array_length, d)
    else (ok n, d)

unfoldable pub array_length : Decode ℕ
unfolding checked_uint bounded_length
array_length = checked_uint 4 >>= bounded_length

-- d.b[d.off : d.off+n] and d.off += n, for n at most the bytes that remain.
unfoldable pub slice : ℕ → Decode (List ℕ)
slice n d =
    if ltb (remaining d) n
    then (err insufficient_data, to_end d)
    else (ok (at_offset d n), skip n d)

-- The switch on the length read by Bytes: below -1, -1, 0, too long, else.
unfoldable pub bytes_of_length : ℤ → Decode (Option (List ℕ))
unfolding slice
bytes_of_length (negsuc zero) = pure none
bytes_of_length (negsuc (suc n)) = fail invalid_byte_slice_length
bytes_of_length (pos zero) = pure (some [])
bytes_of_length (pos (suc n)) = slice (suc n) >>= λ bs. pure (some bs)

unfoldable pub bytes : Decode (Option (List ℕ))
unfolding int32 bytes_of_length
bytes = int32 >>= bytes_of_length

unfoldable pub string_of_length : ℤ → Decode Str
unfolding slice
string_of_length (negsuc zero) = pure []
string_of_length (negsuc (suc n)) = fail invalid_string_length
string_of_length (pos zero) = pure []
string_of_length (pos (suc n)) = slice (suc n)

unfoldable pub string : Decode Str
unfolding int16 string_of_length
string = int16 >>= string_of_length

-- stringLength and the rest of NullableString.
unfoldable pub nullable_of_length : ℤ → Decode (Option Str)
unfolding slice
nullable_of_length (negsuc zero) = pure none
nullable_of_length (negsuc (suc n)) = fail invalid_string_length
nullable_of_length (pos n) = slice n >>= λ s. pure (some s)

unfoldable pub nullable_string : Decode (Option Str)
unfolding int16 nullable_of_length
nullable_string = int16 >>= nullable_of_length

-- A loop of n rounds that stops at the first error.
unfoldable pub times {ℓ} : {A : Type ℓ} → ℕ → Decode A → Decode (List A)
times zero m = pure []
times (suc n) m = m >>= λ x. times n m >>= λ xs. pure (x ∷ xs)

-- remaining() < w*n, tested before the loops of Int32Array and Int64Array.
unfoldable pub enough : ℕ → Decode (Unit {0})
enough n d = if ltb (remaining d) n then (err insufficient_data, to_end d) else (ok tt, d)

-- The loop reads without a test of its own; nil and the empty slice are one list.
unfoldable pub ints : ℕ → ℕ → ℕ → Decode (List ℤ)
unfolding enough times uint
ints w half n = enough (w * n) >> times n (uint w >>= λ v. pure (signed half v))

unfoldable pub int32_array : Decode (List ℤ)
unfolding checked_uint ints
int32_array = checked_uint 4 >>= ints 4 (2 ^ 31)

unfoldable pub int64_array : Decode (List ℤ)
unfolding checked_uint ints
int64_array = checked_uint 4 >>= ints 8 (2 ^ 63)

unfoldable pub string_array : Decode (List Str)
unfolding checked_uint times string
string_array = checked_uint 4 >>= λ n. times n string

-- Push: SaveOffset, the reserved bytes are skipped.
unfoldable pub push : PushKind → Decode (Unit {0})
push k d =
    if ltb (remaining d) 4
    then (err insufficient_data, to_end d)
    else (ok tt, record d { off = d.off + 4; stack = (k, d.off) ∷ d.stack })

module _ (crc32 : List ℕ → ℕ) where
  -- Check of SizeField and of CRCField for the field at `start`, when `off` bytes are read.
  unfoldable pub check : PushKind → ℕ → ℕ → List ℕ → Outcome (Unit {0})
  check size_field start off b =
      if (off + 2 ^ 32 - (start + 4)) % 2 ^ 32 == of_be (take 4 (drop start b))
      then ok tt
      else err length_field_invalid
  check crc_field start off b =
      if crc32 (drop (start + 4) (take off b)) == of_be (take 4 (drop start b))
      then ok tt
      else err crc_mismatch

  -- Pop panics when no field is open.
  unfoldable pub pop_field : List (PushKind × ℕ) → Decode (Unit {0})
  unfolding check
  pop_field [] d = (panic, d)
  pop_field ((k, start) ∷ rest) d = (check k start d.off d.b, record d { stack = rest })

  unfoldable pub pop : Decode (Unit {0})
  unfolding pop_field
  pop d = pop_field d.stack d
