-- ===== src/Protocol/Codec/Arrays.antt =====
-- An array inside a message: the count, the items, and what follows.
use jocko.Common.{ℕ, ◌≤◌, sym, subst, arith}
use jocko.Common.{List, [], ◌∷◌, ◌++◌, length, All, length-append}
use jocko.Common.{Str, ◌^◌}
use jocko.Common.Int.{ℤ, unsigned}
use jocko.Protocol.Binary.{be_bytes, length-be_bytes}
use jocko.Protocol.Encoder.{PutOp}
use jocko.Protocol.Encoder.Writer.{wire, wire_string}
use jocko.Protocol.Decoder.{Decode, ◌>>=◌}
use jocko.Protocol.Decoder.Reads.{Reads, Reads-bind}
use jocko.Protocol.Decoder.Values.{items}
use jocko.Protocol.Decoder.Arrays.{array, array-Reads}
use jocko.Protocol.Codec.{wires, wires-append, each, wires-each}

-- The calls of Encode for a slice: its length and a loop.
abbrev pub put_array {ℓ} : {A : Type ℓ} → (A → List PutOp) → List A → List PutOp
put_array ops xs = PutOp.array_length (length xs) ∷ each ops xs

pub All-map {ℓ κ μ} :
    {A : Type ℓ} (P : A → Type κ) (Q : A → Type μ) (xs : List A)
    → ((x : A) → P x → Q x)
    → All P xs
    → All Q xs
All-map P Q [] f h = tt
All-map P Q (x ∷ xs) f h = (f x h.0, All-map P Q xs f h.1)

length-le-items {ℓ} :
    {A : Type ℓ} (item : A → List ℕ) (xs : List A)
    → ((x : A) → 1 ≤ length (item x))
    → length xs ≤ length (items item xs)
length-le-items item [] h = omega arith
length-le-items item (x ∷ xs) h =
    omega (arith, h x, length-append (item x) (items item xs), length-le-items item xs h)

-- Every item takes a byte or more, and there are at most 131070.
pub put_array-Reads {ℓ} :
    {A : Type ℓ} (m : Decode A) (ops : A → List PutOp) (xs : List A)
    → ((x : A) → 1 ≤ length (wires (ops x)))
    → length xs ≤ 131070
    → All (λ x. Reads m (wires (ops x)) x) xs
    → Reads (array m) (wires (put_array ops xs)) xs
put_array-Reads m ops xs some_byte short h =
    subst (λ bs. Reads (array m) (be_bytes 4 (length xs) ++ bs) xs) (sym (wires-each ops xs))
      (array-Reads m (λ x. wires (ops x)) xs
        (record { not_long = short; not_empty = length-le-items (λ x. wires (ops x)) xs some_byte })
        h)

-- The reads of two lists of calls, one after the other.
pub Reads-ops {ℓ κ} :
    {A : Type ℓ} {B : Type κ} (m : Decode A) (f : A → Decode B) (xs ys : List PutOp) (a : A) (b : B)
    → Reads m (wires xs) a
    → Reads (f a) (wires ys) b
    → Reads (m >>= f) (wires (xs ++ ys)) b
Reads-ops m f xs ys a b hm hf =
    subst (λ bs. Reads (m >>= f) bs b) (sym (wires-append xs ys))
      (Reads-bind m f (wires xs) (wires ys) a b hm hf)

-- An item that begins with a string or a number is not empty.
pub string_first : (s : Str) (ops : List PutOp) → 1 ≤ length (wires (PutOp.string s ∷ ops))
string_first s ops = omega (
  arith,
  length-append (wire_string s) (wires ops),
  length-append (be_bytes 2 (length s)) s,
  length-be_bytes 2 (length s),
)

pub int32_first : (z : ℤ) (ops : List PutOp) → 1 ≤ length (wires (PutOp.int32 z ∷ ops))
int32_first z ops = omega (
  arith,
  length-append (wire (PutOp.int32 z)) (wires ops),
  length-be_bytes 4 (unsigned (2 ^ 31) z),
)
