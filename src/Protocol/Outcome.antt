-- ===== src/Protocol/Outcome.antt =====
-- What a call of the encoders and decoders comes to: a value, one of the errors that
-- protocol/decoder.go declares and the two field checks return, or a run-time panic.

use jocko.Common.{◌≡◌, refl}

pub data CodecError : Type 0 where
  insufficient_data invalid_string_length invalid_array_length : CodecError
  invalid_byte_slice_length length_field_invalid crc_mismatch : CodecError

pub data Outcome {ℓ} (A : Type ℓ) : Type ℓ where
  ok : A → Outcome A
  err : CodecError → Outcome A
  panic : Outcome A

infixl 5 ◌>>=◌
abbrev pub ◌>>=◌ {ℓ κ} : {A : Type ℓ} {B : Type κ} → Outcome A → (A → Outcome B) → Outcome B
ok a >>= f = f a
err e >>= f = err e
panic >>= f = panic

-- A chain that returned a value got one from its first part.
pub >>=-eq-ok {ℓ κ} :
    {B : Type κ} {A : Type ℓ} (first : Outcome A) (next : A → Outcome B) {v : B}
    → (first >>= next) ≡ ok v
    → (x : A) × (first ≡ ok x) × (next x ≡ ok v)
>>=-eq-ok panic next e = cc
>>=-eq-ok (err _) next e = cc
>>=-eq-ok (ok x) next e = (x, refl, e)

pub ok-injective {ℓ} : {A : Type ℓ} {a b : A} → ok a ≡ ok b → a ≡ b
ok-injective h = cc

module _ {ℓ κ μ} {A : Type ℓ} {B : Type κ} {C : Type μ} where
  pub >>=_assoc :
      (m : Outcome A) (f : A → Outcome B) (g : B → Outcome C)
      → ((m >>= f) >>= g) ≡ (m >>= λ a. f a >>= g)
  >>=_assoc (ok a) f g = refl
  >>=_assoc (err e) f g = refl
  >>=_assoc panic f g = refl

module _ {ℓ κ} {A : Type ℓ} {B : Type κ} where
  pub >>=_congr :
      (m : Outcome A) (f g : A → Outcome B)
      → ((a : A) → m ≡ ok a → f a ≡ g a)
      → (m >>= f) ≡ (m >>= g)
  >>=_congr (ok a) f g h = h a refl
  >>=_congr (err e) f g h = refl
  >>=_congr panic f g h = refl
