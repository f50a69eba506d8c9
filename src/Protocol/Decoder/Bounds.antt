-- ===== src/Protocol/Decoder/Bounds.antt =====
-- The offset of a decoder never runs past its slice and never moves back, whatever is read.
use jocko.Common.{ℕ, zero, suc, ◌*◌, ◌^◌, ◌≤◌, ◌≡◌, refl, ◌∙◌, arith}
use jocko.Common.{List, [], ◌∷◌, length}
use jocko.Common.Int.{ℤ, pos, negsuc}
use jocko.Protocol.Outcome.{CodecError, Outcome, ok, err, panic}
use jocko.Protocol.Encoder.{PushKind}
use jocko.Protocol.Decoder
use jocko.Protocol.Decoder.{
  ByteDecoder, Decode, ◌>>=◌, ◌>>◌, pure, fail, remaining, continue, uint, checked_uint, slice,
  string_of_length, bytes_of_length, nullable_of_length, times, bounded_length, enough, ints,
}

pub record Moves (d d' : ByteDecoder) : Type 0 where
  pub same_bytes : d'.b ≡ d.b
  pub forward : d.off ≤ d'.off
  pub in_range : d'.off ≤ length d'.b

-- From an offset in range, a method leaves the bytes alone and an offset in range, not before it.
pub record IsBounded {ℓ} {A : Type ℓ} (m : Decode A) : Type ℓ where
  pub at : (d : ByteDecoder) → d.off ≤ length d.b → Moves d (m d).1

pub pure-IsBounded {ℓ} : {A : Type ℓ} (a : A) → IsBounded (pure a)
pure-IsBounded a = record {
  at = λ d h. record { same_bytes = refl; forward = omega arith; in_range = h };
}

pub fail-IsBounded {ℓ} : {A : Type ℓ} (e : CodecError) → IsBounded (fail {A = A} e)
fail-IsBounded e = record {
  at = λ d h. record { same_bytes = refl; forward = omega arith; in_range = h };
}

continue-IsBounded {ℓ κ} :
    {A : Type ℓ} {B : Type κ} (r : Outcome A) (f : A → Decode B) (d d' : ByteDecoder)
    → ((a : A) → IsBounded (f a))
    → Moves d d'
    → Moves d (continue r f d').1
continue-IsBounded (ok a) f d d' hf mv =
    let next = (hf a).at d' mv.in_range in
    record {
      same_bytes = next.same_bytes ∙ mv.same_bytes;
      forward = omega (arith, next.forward, mv.forward);
      in_range = next.in_range;
    }
continue-IsBounded (err e) f d d' hf mv = mv
continue-IsBounded panic f d d' hf mv = mv

pub bind-IsBounded {ℓ κ} :
    {A : Type ℓ} {B : Type κ} (m : Decode A) (f : A → Decode B)
    → IsBounded m
    → ((a : A) → IsBounded (f a))
    → IsBounded (m >>= f)
bind-IsBounded m f hm hf = record {
  at = λ d h. continue-IsBounded (m d).0 f d (m d).1 hf (hm.at d h);
}

uint-IsBounded : (w : ℕ) → IsBounded (uint w)
unfolding uint
uint-IsBounded w = record { at = λ d h. ground arith }

pub checked_uint-IsBounded : (w : ℕ) → IsBounded (checked_uint w)
unfolding checked_uint
checked_uint-IsBounded w = record { at = λ d h. ground arith }

bounded_length-IsBounded : (n : ℕ) → IsBounded (bounded_length n)
unfolding bounded_length
bounded_length-IsBounded n = record { at = λ d h. ground arith }

slice-IsBounded : (n : ℕ) → IsBounded (slice n)
unfolding slice
slice-IsBounded n = record { at = λ d h. ground arith }

enough-IsBounded : (n : ℕ) → IsBounded (enough n)
unfolding enough
enough-IsBounded n = record { at = λ d h. ground arith }

pub push-IsBounded : (k : PushKind) → IsBounded (Decoder.push k)
unfolding Decoder.push
push-IsBounded k = record { at = λ d h. ground arith }

pub int8-IsBounded : IsBounded Decoder.int8
unfolding Decoder.int8
int8-IsBounded = bind-IsBounded _ _ (uint-IsBounded 1) (λ v. pure-IsBounded _)

pub bool-IsBounded : IsBounded Decoder.bool
unfolding Decoder.bool
bool-IsBounded = bind-IsBounded _ _ int8-IsBounded (λ v. pure-IsBounded _)

pub int16-IsBounded : IsBounded Decoder.int16
unfolding Decoder.int16
int16-IsBounded = bind-IsBounded _ _ (uint-IsBounded 2) (λ v. pure-IsBounded _)

pub int32-IsBounded : IsBounded Decoder.int32
unfolding Decoder.int32
int32-IsBounded = bind-IsBounded _ _ (checked_uint-IsBounded 4) (λ v. pure-IsBounded _)

pub int64-IsBounded : IsBounded Decoder.int64
unfolding Decoder.int64
int64-IsBounded = bind-IsBounded _ _ (checked_uint-IsBounded 8) (λ v. pure-IsBounded _)

pub array_length-IsBounded : IsBounded Decoder.array_length
unfolding Decoder.array_length
array_length-IsBounded = bind-IsBounded _ _ (checked_uint-IsBounded 4) bounded_length-IsBounded

bytes_of_length-IsBounded : (n : ℤ) → IsBounded (bytes_of_length n)
unfolding bytes_of_length
bytes_of_length-IsBounded (negsuc zero) = pure-IsBounded _
bytes_of_length-IsBounded (negsuc (suc n)) = fail-IsBounded _
bytes_of_length-IsBounded (pos zero) = pure-IsBounded _
bytes_of_length-IsBounded (pos (suc n)) =
    bind-IsBounded _ _ (slice-IsBounded (suc n)) (λ bs. pure-IsBounded _)

string_of_length-IsBounded : (n : ℤ) → IsBounded (string_of_length n)
unfolding string_of_length
string_of_length-IsBounded (negsuc zero) = pure-IsBounded _
string_of_length-IsBounded (negsuc (suc n)) = fail-IsBounded _
string_of_length-IsBounded (pos zero) = pure-IsBounded _
string_of_length-IsBounded (pos (suc n)) = slice-IsBounded (suc n)

nullable_of_length-IsBounded : (n : ℤ) → IsBounded (nullable_of_length n)
unfolding nullable_of_length
nullable_of_length-IsBounded (negsuc zero) = pure-IsBounded _
nullable_of_length-IsBounded (negsuc (suc n)) = fail-IsBounded _
nullable_of_length-IsBounded (pos n) =
    bind-IsBounded _ _ (slice-IsBounded n) (λ bs. pure-IsBounded _)

pub times-IsBounded {ℓ} : {A : Type ℓ} (n : ℕ) (m : Decode A) → IsBounded m → IsBounded (times n m)
unfolding times
times-IsBounded zero m h = pure-IsBounded _
times-IsBounded (suc n) m h =
    bind-IsBounded _ _ h (λ x. bind-IsBounded _ _ (times-IsBounded n m h) (λ xs. pure-IsBounded _))

ints-IsBounded : (w half n : ℕ) → IsBounded (ints w half n)
unfolding ints
ints-IsBounded w half n =
    bind-IsBounded _ _ (enough-IsBounded (w * n))
      (λ _. times-IsBounded n _ (bind-IsBounded _ _ (uint-IsBounded w) (λ v. pure-IsBounded _)))

pub bytes-IsBounded : IsBounded Decoder.bytes
unfolding Decoder.bytes
bytes-IsBounded = bind-IsBounded _ _ int32-IsBounded bytes_of_length-IsBounded

pub string-IsBounded : IsBounded Decoder.string
unfolding Decoder.string
string-IsBounded = bind-IsBounded _ _ int16-IsBounded string_of_length-IsBounded

pub nullable_string-IsBounded : IsBounded Decoder.nullable_string
unfolding Decoder.nullable_string
nullable_string-IsBounded = bind-IsBounded _ _ int16-IsBounded nullable_of_length-IsBounded

pub int32_array-IsBounded : IsBounded Decoder.int32_array
unfolding Decoder.int32_array
int32_array-IsBounded = bind-IsBounded _ _ (checked_uint-IsBounded 4) (ints-IsBounded 4 (2 ^ 31))

pub int64_array-IsBounded : IsBounded Decoder.int64_array
unfolding Decoder.int64_array
int64_array-IsBounded = bind-IsBounded _ _ (checked_uint-IsBounded 4) (ints-IsBounded 8 (2 ^ 63))

pub string_array-IsBounded : IsBounded Decoder.string_array
unfolding Decoder.string_array
string_array-IsBounded =
    bind-IsBounded _ _ (checked_uint-IsBounded 4) (λ n. times-IsBounded n _ string-IsBounded)

pub pop-IsBounded : (crc32 : List ℕ → ℕ) → IsBounded (Decoder.pop crc32)
unfolding Decoder.pop
pop-IsBounded crc32 = record { at = λ d h. go d d.stack h }
  where
    go :
        (d : ByteDecoder) (fields : List (PushKind × ℕ))
        → d.off ≤ length d.b
        → Moves d (Decoder.pop_field crc32 fields d).1
    go d [] h = record { same_bytes = refl; forward = omega arith; in_range = h }
    go d ((k, start) ∷ rest) h = record { same_bytes = refl; forward = omega arith; in_range = h }

-- Whatever the input, well formed or not: from an offset within the slice, each method of the
-- decoder, whether it returns a value or an error, leaves the slice alone and the offset where it
-- was or further on, but never past the end of the slice.
pub decoder-IsBounded :
    (crc32 : List ℕ → ℕ) (k : PushKind)
    → IsBounded Decoder.bool
      × IsBounded Decoder.int8
      × IsBounded Decoder.int16
      × IsBounded Decoder.int32
      × IsBounded Decoder.int64
      × IsBounded Decoder.array_length
      × IsBounded Decoder.bytes
      × IsBounded Decoder.string
      × IsBounded Decoder.nullable_string
      × IsBounded Decoder.int32_array
      × IsBounded Decoder.int64_array
      × IsBounded Decoder.string_array
      × IsBounded (Decoder.push k)
      × IsBounded (Decoder.pop crc32)
decoder-IsBounded crc32 k = (
  bool-IsBounded,
  int8-IsBounded,
  int16-IsBounded,
  int32-IsBounded,
  int64-IsBounded,
  array_length-IsBounded,
  bytes-IsBounded,
  string-IsBounded,
  nullable_string-IsBounded,
  int32_array-IsBounded,
  int64_array-IsBounded,
  string_array-IsBounded,
  push-IsBounded k,
  pop-IsBounded crc32,
)
