-- ===== src/Protocol/Codec/Fields.antt =====
-- The fields of messages over the wire, for `Carries`.
use jocko.Common.{
  ℕ, suc, ◌+◌, ◌-◌, ◌*◌, ◌/◌, ◌^◌, ◌≤◌, ◌≡◌, sym, ap, subst, Bool, true, false, Option, arith, List,
  [], ◌∷◌, length, All, Str, length-append,
}
use jocko.Common.Int.{ℤ, pos, negsuc, InWord, unsigned}
use jocko.Protocol.Binary.{be_bytes, length-be_bytes}
use jocko.Protocol.Encoder.{PutOp, max_int16, max_int32}
use jocko.Protocol.Encoder.Writer.{wire}
use jocko.Protocol.Decoder
use jocko.Protocol.Decoder.{Decode, ◌>>=◌, pure}
use jocko.Protocol.Decoder.Reads.{
  Reads, Reads-map, int8-Reads, int16-Reads, int32-Reads, int64-Reads,
}
use jocko.Protocol.Decoder.Values.{
  FitsString, FitsBytes, bool-Reads, string-Reads, nullable_string-Reads, bytes-Reads,
}
use jocko.Protocol.Decoder.Arrays.{array, int32_array-Reads, int64_array-Reads, string_array-Reads}
use jocko.Protocol.Codec.{wires, each}
use jocko.Protocol.Codec.Arrays.{put_array, put_array-Reads}
use jocko.Protocol.Codec.Carries.{All-append, Sends, Carries, Carries-one, Carries-pure}
use jocko.Protocol.Fields.{
  or_nil, unchecked, negated, when, optional, to_millis, of_millis, put_duration, duration,
  put_time, time, put_flag,
}

abbrev pub Int8 : ℤ → Type 0
Int8 z = InWord (2 ^ 7) z

abbrev pub Int16 : ℤ → Type 0
Int16 z = InWord (2 ^ 15) z

abbrev pub Int32 : ℤ → Type 0
Int32 z = InWord (2 ^ 31) z

abbrev pub Int64 : ℤ → Type 0
Int64 z = InWord (2 ^ 63) z

abbrev pub FitsStr : Str → Type 0
FitsStr s = length s ≤ max_int16

abbrev pub FitsInt32s : List ℤ → Type 0
FitsInt32s vs = (length vs ≤ max_int32) × All Int32 vs

abbrev pub FitsInt64s : List ℤ → Type 0
FitsInt64s vs = (length vs ≤ max_int32) × All Int64 vs

abbrev pub FitsStrs : List Str → Type 0
FitsStrs ss = (length ss ≤ max_int32) × All FitsStr ss

-- A duration of so many milliseconds that an int32 holds the number.
abbrev pub IsMillis : ℤ → Type 0
IsMillis d = (z : ℤ) × Int32 z × (of_millis z ≡ d)

-- A time that UnixNano can return, of so many milliseconds.
abbrev pub IsMillis64 : ℤ → Type 0
IsMillis64 d = (z : ℤ) × Int64 d × Int64 z × (of_millis z ≡ d)

pub bool-Carries : (b : Bool) → Carries Decoder.bool (PutOp.bool b ∷ []) b
bool-Carries b = Carries-one tt (bool-Reads b)

pub flag-Carries : (b : Bool) → Carries Decoder.bool (put_flag b ∷ []) b
unfolding be_bytes unsigned
flag-Carries true = Carries-one tt (bool-Reads true)
flag-Carries false = Carries-one tt (bool-Reads false)

pub int8-Carries : (z : ℤ) → Int8 z → Carries Decoder.int8 (PutOp.int8 z ∷ []) z
int8-Carries z h = Carries-one tt (int8-Reads z h)

pub int16-Carries : (z : ℤ) → Int16 z → Carries Decoder.int16 (PutOp.int16 z ∷ []) z
int16-Carries z h = Carries-one tt (int16-Reads z h)

pub int32-Carries : (z : ℤ) → Int32 z → Carries Decoder.int32 (PutOp.int32 z ∷ []) z
int32-Carries z h = Carries-one tt (int32-Reads z h)

pub int64-Carries : (z : ℤ) → Int64 z → Carries Decoder.int64 (PutOp.int64 z ∷ []) z
int64-Carries z h = Carries-one tt (int64-Reads z h)

pub string-Carries : (s : Str) → FitsStr s → Carries Decoder.string (PutOp.string s ∷ []) s
string-Carries s h = Carries-one h (string-Reads s h)

pub nullable_string-Carries :
    (s : Option Str)
    → FitsString s
    → Carries Decoder.nullable_string (PutOp.nullable_string s ∷ []) s
nullable_string-Carries s h = Carries-one h (nullable_string-Reads s h)

pub bytes-Carries :
    (bs : Option (List ℕ)) → FitsBytes bs → Carries Decoder.bytes (PutOp.bytes bs ∷ []) bs
bytes-Carries bs h = Carries-one h (bytes-Reads bs h)

pub int32_array-Carries :
    (vs : List ℤ) → FitsInt32s vs → Carries Decoder.int32_array (PutOp.int32_array vs ∷ []) vs
int32_array-Carries vs (n, h) = Carries-one n (int32_array-Reads vs n h)

pub int64_array-Carries :
    (vs : List ℤ) → FitsInt64s vs → Carries Decoder.int64_array (PutOp.int64_array vs ∷ []) vs
int64_array-Carries vs (n, h) = Carries-one n (int64_array-Reads vs n h)

pub string_array-Carries :
    (ss : List Str) → FitsStrs ss → Carries Decoder.string_array (PutOp.string_array ss ∷ []) ss
string_array-Carries ss (n, h) = Carries-one (n, h) (string_array-Reads ss n h)

to_millis-of_millis : (z : ℤ) → to_millis (of_millis z) ≡ z
to_millis-of_millis (pos n) = ap pos (let e : n * 1000000 / 1000000 ≡ n = omega arith in e)
to_millis-of_millis (negsuc n) =
    ap negated (let e : ((n + 1) * 1000000 - 1 + 1) / 1000000 ≡ suc n = omega arith in e)

pub duration-Carries : (d : ℤ) → IsMillis d → Carries duration (put_duration d ∷ []) d
unfolding duration
duration-Carries d (z, h, e) =
    subst (λ t. Carries duration (put_duration t ∷ []) t) e
      (subst (λ m. Carries duration (PutOp.int32 m ∷ []) (of_millis z))
        (sym (to_millis-of_millis z))
        (Carries-one tt (Reads-map Decoder.int32 of_millis _ z (int32-Reads z h))))

pub time-Carries : (d : ℤ) → IsMillis64 d → Carries time (put_time d ∷ []) d
unfolding time
time-Carries d (z, nanos, h, e) =
    subst (λ t. Carries time (put_time t ∷ []) t) e
      (subst (λ m. Carries time (PutOp.int64 m ∷ []) (of_millis z)) (sym (to_millis-of_millis z))
        (Carries-one tt (Reads-map Decoder.int64 of_millis _ z (int64-Reads z h))))

-- A field that the version leaves out has its zero value.
abbrev pub Absent {ℓ} : {A : Type ℓ} → Bool → A → A → Type ℓ
Absent true a zero_value = Unit {ℓ}
Absent false a zero_value = a ≡ zero_value

pub optional-Carries {ℓ} :
    {A : Type ℓ} (b : Bool) {m : Decode A} {ops : List PutOp} (a zero_value : A)
    → Carries m ops a
    → Absent b a zero_value
    → Carries (optional b m zero_value) (when b ops) a
optional-Carries true a zero_value h absent = h
optional-Carries false a zero_value h absent =
    subst (λ x. Carries (pure zero_value) [] x) (sym absent) (Carries-pure zero_value)

-- The items of an array, which take a byte or more each.
abbrev pub Items {ℓ} : {A : Type ℓ} → Decode A → (A → List PutOp) → List A → Type ℓ
Items m ops xs = All (λ x. Carries m (ops x) x) xs

Items-Reads {ℓ} :
    {A : Type ℓ} (m : Decode A) (ops : A → List PutOp) (xs : List A)
    → Items m ops xs
    → All (λ x. Reads m (wires (ops x)) x) xs
Items-Reads m ops [] h = tt
Items-Reads m ops (x ∷ xs) (h, hs) = (h.reads, Items-Reads m ops xs hs)

Items-Sends {ℓ} :
    {A : Type ℓ} (m : Decode A) (ops : A → List PutOp) (xs : List A)
    → Items m ops xs
    → All Sends (each ops xs)
Items-Sends m ops [] h = tt
Items-Sends m ops (x ∷ xs) (h, hs) =
    All-append (ops x) (each ops xs) h.sends (Items-Sends m ops xs hs)

pub array-Carries {ℓ} :
    {A : Type ℓ} (m : Decode A) (ops : A → List PutOp) (xs : List A)
    → ((x : A) → 1 ≤ length (wires (ops x)))
    → length xs ≤ 131070
    → Items m ops xs
    → Carries (array m) (put_array ops xs) xs
array-Carries m ops xs some_byte short h = record {
  sends = (omega arith, Items-Sends m ops xs h);
  reads = put_array-Reads m ops xs some_byte short (Items-Reads m ops xs h);
}

-- An item whose first call takes a byte or more is not empty.
first_wire : (op : PutOp) (ops : List PutOp) → 1 ≤ length (wire op) → 1 ≤ length (wires (op ∷ ops))
first_wire op ops h = omega (arith, length-append (wire op) (wires ops))

pub int16_first : (z : ℤ) (ops : List PutOp) → 1 ≤ length (wires (PutOp.int16 z ∷ ops))
int16_first z ops =
    first_wire (PutOp.int16 z) ops (omega (arith, length-be_bytes 2 (unsigned (2 ^ 15) z)))

pub int8_first : (z : ℤ) (ops : List PutOp) → 1 ≤ length (wires (PutOp.int8 z ∷ ops))
int8_first z ops =
    first_wire (PutOp.int8 z) ops (omega (arith, length-be_bytes 1 (unsigned (2 ^ 7) z)))

pub int64_first : (z : ℤ) (ops : List PutOp) → 1 ≤ length (wires (PutOp.int64 z ∷ ops))
int64_first z ops =
    first_wire (PutOp.int64 z) ops (omega (arith, length-be_bytes 8 (unsigned (2 ^ 63) z)))

pub or_nil-Carries {ℓ} :
    {A : Type ℓ} {m : Decode (List A)} {ops : List PutOp} {xs : List A}
    → Carries m ops xs
    → Carries (or_nil m) ops xs
unfolding or_nil
or_nil-Carries h = record {
  sends = h.sends;
  reads = record { at = λ d tail e. ap (λ r. (unchecked r.0, r.1)) (h.reads.at d tail e) };
}

-- Encode sends -1 whatever the field holds.
pub minus_one-Carries :
    (z : ℤ) → z ≡ negsuc 0 → Carries Decoder.int32 (PutOp.int32 (negsuc 0) ∷ []) z
minus_one-Carries z h =
    subst (λ y. Carries Decoder.int32 (PutOp.int32 (negsuc 0) ∷ []) y) (sym h)
      (int32-Carries (negsuc 0) (omega arith))

-- A field that Encode sends from some version on and Decode reads at every version.
pub sent-Carries {ℓ} :
    {A : Type ℓ} (b : Bool) {m : Decode A} {ops : List PutOp} {a : A}
    → b ≡ true
    → Carries m ops a
    → Carries m (when b ops) a
sent-Carries b {m} {ops} {a} e h = subst (λ c. Carries m (when c ops) a) (sym e) h
