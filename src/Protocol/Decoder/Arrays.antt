-- ===== src/Protocol/Decoder/Arrays.antt =====
-- Arrays: a count and a loop of that many reads.
use jocko.Common.{ℕ, ◌*◌, ◌^◌, ◌≤◌, ◌<◌, ◌≡◌, refl, ap, subst, ◌∙◌, false, arith}
use jocko.Common.{List, [], ◌∷◌, ◌++◌, length, Str, ltb, All, length-append}
use jocko.Common.Int.{ℤ, InWord, unsigned, signed, unsigned-lt}
use jocko.Protocol.Binary.{be_bytes, length-be_bytes}
use jocko.Protocol.Outcome.{Outcome, ok, err, panic}
use jocko.Protocol.Encoder.{max_int16, max_int32}
use jocko.Protocol.Encoder.{PutOp}
use jocko.Protocol.Encoder.Writer.{wire, wire_string, wire_strings, wire_ints}
use jocko.Protocol.Decoder
use jocko.Protocol.Decoder.{
  ByteDecoder, Decode, ◌>>=◌, ◌>>◌, pure, skip, remaining, continue, uint, checked_uint, times,
  bounded_length, enough, ints,
}
use jocko.Protocol.Decoder.Reads.{
  Reads, remaining-eq, Reads-bind, uint-Reads, checked_uint-Reads, signed-Reads,
}
use jocko.Protocol.Decoder.Values.{items, times-Reads, string-Reads}

>>=_assoc {ℓ κ μ} :
    {A : Type ℓ} {B : Type κ} {C : Type μ} (m : Decode A) (f : A → Decode B) (g : B → Decode C)
    (d : ByteDecoder)
    → ((m >>= f) >>= g) d ≡ (m >>= λ a. f a >>= g) d
>>=_assoc {A} {B} {C} m f g d = go (m d).0
  where
    go : (r : Outcome A) → (continue r f >>= g) (m d).1 ≡ continue r (λ a. f a >>= g) (m d).1
    go (ok a) = refl
    go (err e) = refl
    go panic = refl

-- A count that the bytes behind it can hold passes the tests of ArrayLength, and costs nothing.
counted-Reads {ℓ} :
    {A : Type ℓ} (test : ℕ → Decode ℕ) (m : ℕ → Decode A) (n : ℕ) (bs : List ℕ) (a : A)
    → n < 2 ^ 32
    → ((d : ByteDecoder) → length bs ≤ remaining d → test n d ≡ (ok n, d))
    → Reads (m n) bs a
    → Reads (checked_uint 4 >>= λ k. test k >>= m) (be_bytes 4 n ++ bs) a
counted-Reads test m n bs a fits pass hm =
    Reads-bind (checked_uint 4) (λ k. test k >>= m) (be_bytes 4 n) bs n a
      (checked_uint-Reads 4 n (omega arith) (omega arith))
      (record {
        at = λ d tail h.
            ap (λ r. continue r.0 m r.1) (pass d (omega (arith, remaining-eq d bs tail h)))
            ∙ hm.at d tail h;
      })

-- What precedes the loops of the messages: the count, then as many reads.
unfoldable pub array {ℓ} : {A : Type ℓ} → Decode A → Decode (List A)
unfolding Decoder.array_length times
array m = Decoder.array_length >>= λ n. times n m

-- At most 131070 items, and a byte at least for each.
pub record FitsArray {ℓ} {A : Type ℓ} (item : A → List ℕ) (xs : List A) : Type 0 where
  pub not_long : length xs ≤ 131070
  pub not_empty : length xs ≤ length (items item xs)

pub array-Reads {ℓ} :
    {A : Type ℓ} (m : Decode A) (item : A → List ℕ) (xs : List A)
    → FitsArray item xs
    → All (λ x. Reads m (item x) x) xs
    → Reads (array m) (be_bytes 4 (length xs) ++ items item xs) xs
unfolding array
array-Reads m item xs fits h = record {
  at = λ d tail e.
      >>=_assoc (checked_uint 4) bounded_length (λ n. times n m) d
      ∙ (counted-Reads bounded_length (λ n. times n m) (length xs) (items item xs) xs
            (omega (arith, fits.not_long))
            (λ d' room. ground (arith, fits.not_long, fits.not_empty)) (times-Reads m item xs h)).at
          d tail e;
}

abbrev pub int_item : ℕ → ℕ → ℤ → List ℕ
int_item w half v = be_bytes w (unsigned half v)

items-ints : (w half : ℕ) (vs : List ℤ) → items (int_item w half) vs ≡ wire_ints w half vs
items-ints w half [] = refl
items-ints w half (v ∷ vs) = ap (λ bs. int_item w half v ++ bs) (items-ints w half vs)

All-uint :
    (w half : ℕ) (vs : List ℤ)
    → 0 < w
    → 2 * half ≤ 256 ^ w
    → 0 < half
    → All (InWord half) vs
    → All (λ v. Reads (uint w >>= λ u. pure (signed half u)) (int_item w half v) v) vs
All-uint w half [] hw fits hh h = tt
All-uint w half (v ∷ vs) hw fits hh h = (
  signed-Reads (uint w) w half v
      (uint-Reads w (unsigned half v) hw (omega (arith, unsigned-lt half v hh))) h.0,
  All-uint w half vs hw fits hh h.1,
)

length-wire_ints : (w half : ℕ) (vs : List ℤ) → length (wire_ints w half vs) ≡ w * length vs
length-wire_ints w half [] = omega arith
length-wire_ints w half (v ∷ vs) = grind (
  arith,
  length-append (be_bytes w (unsigned half v)) (wire_ints w half vs),
  length-be_bytes w (unsigned half v),
  length-wire_ints w half vs,
)

-- Int32Array and Int64Array.
ints-Reads :
    (w half : ℕ) (vs : List ℤ)
    → 0 < w
    → 2 * half ≤ 256 ^ w
    → 0 < half
    → All (InWord half) vs
    → Reads (ints w half (length vs)) (wire_ints w half vs) vs
unfolding ints enough
ints-Reads w half vs hw fits hh h = record {
  at = λ d tail e.
      let size = length-wire_ints w half vs in
      let room : ltb (remaining d) (w * length vs) ≡ false =
        ground (arith, remaining-eq d (wire_ints w half vs) tail e) in
      rw room (
        (subst (λ bs. Reads (times (length vs) (uint w >>= λ u. pure (signed half u))) bs vs)
            (items-ints w half vs)
            (times-Reads _ (int_item w half) vs (All-uint w half vs hw fits hh h))).at
          d tail e);
}

pub int32_array-Reads :
    (vs : List ℤ)
    → length vs ≤ max_int32
    → All (InWord (2 ^ 31)) vs
    → Reads Decoder.int32_array (wire (PutOp.int32_array vs)) vs
unfolding Decoder.int32_array
int32_array-Reads vs n h =
    Reads-bind (checked_uint 4) (ints 4 (2 ^ 31)) (be_bytes 4 (length vs)) (wire_ints 4 (2 ^ 31) vs)
      (length vs) vs (checked_uint-Reads 4 (length vs) (omega arith) (omega arith))
      (ints-Reads 4 (2 ^ 31) vs (omega arith) (omega arith) (omega arith) h)

pub int64_array-Reads :
    (vs : List ℤ)
    → length vs ≤ max_int32
    → All (InWord (2 ^ 63)) vs
    → Reads Decoder.int64_array (wire (PutOp.int64_array vs)) vs
unfolding Decoder.int64_array
int64_array-Reads vs n h =
    Reads-bind (checked_uint 4) (ints 8 (2 ^ 63)) (be_bytes 4 (length vs)) (wire_ints 8 (2 ^ 63) vs)
      (length vs) vs (checked_uint-Reads 4 (length vs) (omega arith) (omega arith))
      (ints-Reads 8 (2 ^ 63) vs (omega arith) (omega arith) (omega arith) h)

items-strings : (ss : List Str) → items wire_string ss ≡ wire_strings ss
items-strings [] = refl
items-strings (s ∷ ss) = ap (λ bs. wire_string s ++ bs) (items-strings ss)

All-string :
    (ss : List Str)
    → All (λ s. length s ≤ max_int16) ss
    → All (λ s. Reads Decoder.string (wire_string s) s) ss
All-string [] h = tt
All-string (s ∷ ss) h = (string-Reads s h.0, All-string ss h.1)

pub string_array-Reads :
    (ss : List Str)
    → length ss ≤ max_int32
    → All (λ s. length s ≤ max_int16) ss
    → Reads Decoder.string_array (wire (PutOp.string_array ss)) ss
unfolding Decoder.string_array
string_array-Reads ss n h =
    Reads-bind (checked_uint 4) (λ k. times k Decoder.string) (be_bytes 4 (length ss))
      (wire_strings ss) (length ss) ss
      (checked_uint-Reads 4 (length ss) (omega arith) (omega arith))
      (subst (λ bs. Reads (times (length ss) Decoder.string) bs ss) (items-strings ss)
        (times-Reads Decoder.string wire_string ss (All-string ss h)))
