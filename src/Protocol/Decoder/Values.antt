-- ===== src/Protocol/Decoder/Values.antt =====
-- Strings, byte slices and arrays: the decoder reads back what the encoder puts on the wire.
use jocko.Common.{ℕ, ◌*◌, ◌%◌, ◌^◌, ◌≤◌, ◌≡◌, ap, subst, Bool, true, false, arith}
use jocko.Common.{Option, none, some, List, [], ◌∷◌, ◌++◌, length, Str, ltb, All}
use jocko.Common.Int.{pos, negsuc, unsigned}
use jocko.Protocol.Binary.{be_bytes}
use jocko.Protocol.Encoder.{max_int16, max_int32}
use jocko.Protocol.Encoder.{PutOp}
use jocko.Protocol.Encoder.Writer.{wire, wire_string}
use jocko.Protocol.Decoder
use jocko.Protocol.Decoder.{
  ByteDecoder, Decode, ◌>>=◌, ◌>>◌, pure, remaining, continue, checked_uint, slice,
  string_of_length, bytes_of_length, nullable_of_length, times, bounded_length, enough,
}
use jocko.Protocol.Decoder.Reads.{
  Reads, remaining-eq, taken, Reads-pure, Reads-bind, Reads-map, int8-Reads, int16-Reads,
  int32-Reads,
}

pub bool-Reads : (v : Bool) → Reads Decoder.bool (wire (PutOp.bool v)) v
unfolding Decoder.bool be_bytes unsigned
bool-Reads true = Reads-map Decoder.int8 _ (1 ∷ []) (pos 1) (int8-Reads (pos 1) (omega arith))
bool-Reads false = Reads-map Decoder.int8 _ (0 ∷ []) (pos 0) (int8-Reads (pos 0) (omega arith))

slice-Reads : (bs : List ℕ) → Reads (slice (length bs)) bs bs
unfolding slice
slice-Reads bs = record {
  at = λ d tail h.
      let room : ltb (remaining d) (length bs) ≡ false = ground (arith, remaining-eq d bs tail h) in
      rw (room, taken d bs tail h);
}

length16-Reads : (n : ℕ) → n ≤ max_int16 → Reads Decoder.int16 (be_bytes 2 n) (pos n)
unfolding unsigned
length16-Reads n h =
    subst (λ m. Reads Decoder.int16 (be_bytes 2 m) (pos n))
      (let e : n % (2 * 2 ^ 15) ≡ n = omega arith in e) (int16-Reads (pos n) (omega arith))

length32-Reads : (n : ℕ) → n ≤ max_int32 → Reads Decoder.int32 (be_bytes 4 n) (pos n)
unfolding unsigned
length32-Reads n h =
    subst (λ m. Reads Decoder.int32 (be_bytes 4 m) (pos n))
      (let e : n % (2 * 2 ^ 31) ≡ n = omega arith in e) (int32-Reads (pos n) (omega arith))

string_of_length-Reads : (s : Str) → Reads (string_of_length (pos (length s))) s s
unfolding string_of_length
string_of_length-Reads [] = Reads-pure []
string_of_length-Reads (x ∷ xs) = slice-Reads (x ∷ xs)

pub string-Reads : (s : Str) → length s ≤ max_int16 → Reads Decoder.string (wire_string s) s
unfolding Decoder.string
string-Reads s h =
    Reads-bind Decoder.int16 string_of_length (be_bytes 2 (length s)) s (pos (length s)) s
      (length16-Reads (length s) h) (string_of_length-Reads s)

-- The strings and byte slices that the length pass accepts.
abbrev pub FitsString : Option Str → Type 0
FitsString none = Unit
FitsString (some s) = length s ≤ max_int16

abbrev pub FitsBytes : Option (List ℕ) → Type 0
FitsBytes none = Unit
FitsBytes (some bs) = length bs ≤ max_int32

pub nullable_string-Reads :
    (s : Option Str)
    → FitsString s
    → Reads Decoder.nullable_string (wire (PutOp.nullable_string s)) s
unfolding Decoder.nullable_string nullable_of_length unsigned
nullable_string-Reads none h = record {
  at = λ d tail e.
      ap (λ r. continue r.0 nullable_of_length r.1)
        ((int16-Reads (negsuc 0) (omega arith)).at d tail e);
}
nullable_string-Reads (some s) h =
    Reads-bind Decoder.int16 nullable_of_length (be_bytes 2 (length s)) s (pos (length s)) (some s)
      (length16-Reads (length s) h) (Reads-map (slice (length s)) some s s (slice-Reads s))

bytes_of_length-Reads : (bs : List ℕ) → Reads (bytes_of_length (pos (length bs))) bs (some bs)
unfolding bytes_of_length
bytes_of_length-Reads [] = Reads-pure (some [])
bytes_of_length-Reads (x ∷ xs) =
    Reads-map (slice (length (x ∷ xs))) some (x ∷ xs) (x ∷ xs) (slice-Reads (x ∷ xs))

pub bytes-Reads :
    (bs : Option (List ℕ)) → FitsBytes bs → Reads Decoder.bytes (wire (PutOp.bytes bs)) bs
unfolding Decoder.bytes bytes_of_length unsigned
bytes-Reads none h = record {
  at = λ d tail e.
      ap (λ r. continue r.0 bytes_of_length r.1)
        ((int32-Reads (negsuc 0) (omega arith)).at d tail e);
}
bytes-Reads (some bs) h =
    Reads-bind Decoder.int32 bytes_of_length (be_bytes 4 (length bs)) bs (pos (length bs)) (some bs)
      (length32-Reads (length bs) h) (bytes_of_length-Reads bs)

-- The bytes of a list of items.
abbrev pub items {ℓ} : {A : Type ℓ} → (A → List ℕ) → List A → List ℕ
items item [] = []
items item (x ∷ xs) = item x ++ items item xs

-- A loop reads the items one after the other.
module _ {ℓ} {A : Type ℓ} (m : Decode A) (item : A → List ℕ) where
  pub times-Reads :
      (xs : List A)
      → All (λ x. Reads m (item x) x) xs
      → Reads (times (length xs) m) (items item xs) xs
  unfolding times
  times-Reads [] h = Reads-pure []
  times-Reads (x ∷ xs) h =
      Reads-bind m _ (item x) (items item xs) x (x ∷ xs) h.0
        (Reads-map (times (length xs) m) (λ ys. x ∷ ys) (items item xs) xs (times-Reads xs h.1))
