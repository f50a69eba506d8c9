-- ===== src/Protocol/Decoder/Panics.antt =====
-- Which methods of the decoder panic on a slice that is too short.
use jocko.Common.{ℕ, zero, suc, ◌≤◌, ◌<◌, ◌≡◌, ◌≢◌, ◌↔◌, refl, ap, arith}
use jocko.Common.{length}
use jocko.Common.Int.{ℤ, pos, negsuc}
use jocko.Protocol.Decoder.{string_of_length}
use native.Mathlib.Decide.{dec_lt}
use jocko.Protocol.Outcome.{Outcome, ok, err, panic}
use jocko.Protocol.Decoder
use jocko.Protocol.Decoder.{
  ByteDecoder, Decode, ◌>>=◌, pure, remaining, continue, uint, checked_uint, slice, bytes_of_length,
  bounded_length,
}
use jocko.Protocol.Decoder.Bounds.{
  IsBounded, int16-IsBounded, int32-IsBounded, checked_uint-IsBounded,
}

abbrev pub NeverPanics {ℓ} : {A : Type ℓ} → Decode A → Type ℓ
NeverPanics m = (d : ByteDecoder) → d.off ≤ length d.b → (m d).0 ≢ panic

continue-NeverPanics {ℓ κ} :
    {A : Type ℓ} {B : Type κ} (r : Outcome A) (f : A → Decode B) (d : ByteDecoder)
    → r ≢ panic
    → ((a : A) → (f a d).0 ≢ panic)
    → (continue r f d).0 ≢ panic
continue-NeverPanics (ok a) f d hr hf = hf a
continue-NeverPanics (err e) f d hr hf = λ p. cc
continue-NeverPanics panic f d hr hf = λ p. hr refl

bind-NeverPanics {ℓ κ} :
    {A : Type ℓ} {B : Type κ} (m : Decode A) (f : A → Decode B)
    → IsBounded m
    → NeverPanics m
    → ((a : A) → NeverPanics (f a))
    → NeverPanics (m >>= f)
bind-NeverPanics m f bm hm hf d h =
    continue-NeverPanics (m d).0 f (m d).1 (hm d h) (λ a. hf a (m d).1 ((bm.at d h).in_range))

checked_uint-NeverPanics : (w : ℕ) → NeverPanics (checked_uint w)
unfolding checked_uint
checked_uint-NeverPanics w d h = λ p. ground arith

int32-NeverPanics : NeverPanics Decoder.int32
unfolding Decoder.int32
int32-NeverPanics =
    bind-NeverPanics (checked_uint 4) _ (checked_uint-IsBounded 4) (checked_uint-NeverPanics 4)
      (λ v d h p. cc)

int64-NeverPanics : NeverPanics Decoder.int64
unfolding Decoder.int64
int64-NeverPanics =
    bind-NeverPanics (checked_uint 8) _ (checked_uint-IsBounded 8) (checked_uint-NeverPanics 8)
      (λ v d h p. cc)

array_length-NeverPanics : NeverPanics Decoder.array_length
unfolding Decoder.array_length bounded_length
array_length-NeverPanics =
    bind-NeverPanics (checked_uint 4) _ (checked_uint-IsBounded 4) (checked_uint-NeverPanics 4)
      (λ n d h p. ground arith)

bytes_of_length-NeverPanics : (n : ℤ) → NeverPanics (bytes_of_length n)
unfolding bytes_of_length slice
bytes_of_length-NeverPanics (negsuc zero) d h p = cc
bytes_of_length-NeverPanics (negsuc (suc n)) d h p = cc
bytes_of_length-NeverPanics (pos zero) d h p = cc
bytes_of_length-NeverPanics (pos (suc n)) d h p = ground arith

bytes-NeverPanics : NeverPanics Decoder.bytes
unfolding Decoder.bytes
bytes-NeverPanics =
    bind-NeverPanics Decoder.int32 bytes_of_length int32-IsBounded int32-NeverPanics
      bytes_of_length-NeverPanics

int8-panic_iff :
    (d : ByteDecoder) → d.off ≤ length d.b → ((Decoder.int8 d).0 ≡ panic) ↔ (remaining d < 1)
unfolding Decoder.int8
int8-panic_iff d h = (λ p. ground arith, λ p. ground arith)

int16-panic_iff :
    (d : ByteDecoder) → d.off ≤ length d.b → ((Decoder.int16 d).0 ≡ panic) ↔ (remaining d < 2)
unfolding Decoder.int16
int16-panic_iff d h = (λ p. ground arith, λ p. ground arith)

string_of_length-NeverPanics : (n : ℤ) → NeverPanics (string_of_length n)
unfolding string_of_length slice
string_of_length-NeverPanics (negsuc zero) d h p = cc
string_of_length-NeverPanics (negsuc (suc n)) d h p = cc
string_of_length-NeverPanics (pos zero) d h p = cc
string_of_length-NeverPanics (pos (suc n)) d h p = ground arith

string-panic_iff :
    (d : ByteDecoder) → d.off ≤ length d.b → ((Decoder.string d).0 ≡ panic) ↔ (remaining d < 2)
unfolding Decoder.string
string-panic_iff d h = (
  λ p. elim (dec_lt (remaining d) 2) [
    | yes short ↦ short
    | no enough ↦ absurd (
        continue-NeverPanics (Decoder.int16 d).0 string_of_length (Decoder.int16 d).1
          (λ q. enough ((int16-panic_iff d h).0 q))
          (λ n. string_of_length-NeverPanics n _ (int16-IsBounded.at d h).in_range) p)
  ],
  λ short.
      ap (λ r. (continue r string_of_length (Decoder.int16 d).1).0) ((int16-panic_iff d h).1 short),
)

-- From an offset within the slice, Int32, Int64, ArrayLength and Bytes never panic, however short
-- the input; Int8 panics exactly when no byte is left, and Int16 and String exactly when fewer
-- than two are.
pub panics_exactly :
    (d : ByteDecoder)
    → d.off ≤ length d.b
    → ((Decoder.int32 d).0 ≢ panic)
      × ((Decoder.int64 d).0 ≢ panic)
      × ((Decoder.array_length d).0 ≢ panic)
      × ((Decoder.bytes d).0 ≢ panic)
      × (((Decoder.int8 d).0 ≡ panic) ↔ (remaining d < 1))
      × (((Decoder.int16 d).0 ≡ panic) ↔ (remaining d < 2))
      × (((Decoder.string d).0 ≡ panic) ↔ (remaining d < 2))
panics_exactly d h = (
  int32-NeverPanics d h,
  int64-NeverPanics d h,
  array_length-NeverPanics d h,
  bytes-NeverPanics d h,
  int8-panic_iff d h,
  int16-panic_iff d h,
  string-panic_iff d h,
)
