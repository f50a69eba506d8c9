-- ===== src/Protocol/Codec/Carries.antt =====
-- A message over the wire: `Carries m ops a` says that the encoder takes the calls `ops`, and that the
-- decoder `m` reads `a` from what they put on the wire.
use jocko.Common.{
  ℕ, ◌*◌, ◌≤◌, ◌≡◌, refl, sym, ap, subst, ◌∙◌, none, some, arith, List, [], ◌∷◌, ◌++◌, length, All,
  Str, ge→ltb,
}
use jocko.Protocol.Outcome.{Outcome, ok, ◌>>=◌}
use jocko.Protocol.Encoder.{
  PutOp, bool, int8, int16, int32, int64, array_length, raw_bytes, bytes, string, nullable_string,
  string_array, int32_array, int64_array, push, pop, max_int16, max_int32, LenEncoder, add_len,
  len_array_length, len_raw_bytes, len_string, len_strings, len_put, len_run, encode,
}
use jocko.Protocol.Encoder.Writer.{wire, no_bytes, write_run, Writer}
use jocko.Protocol.Encoder.Appends.{IsPlain}
use jocko.Protocol.Encoder.Agree.{encode-eq-write_run}
use jocko.Protocol.Decoder.{Decode, ◌>>=◌ as ◌>>>=◌, pure, new_decoder, skip, remaining}
use jocko.Protocol.Decoder.Reads.{Reads, Reads-map, Reads-pure, Reads-bind}
use jocko.Protocol.Decoder.Values.{FitsString, FitsBytes}
use jocko.Protocol.Codec.{wires, wires-append, write_run-plain}
use mathlib.Core.List.{append-nil}

-- A call that opens or closes no field, and that the length pass takes.
abbrev pub Sends : PutOp → Type 0
Sends (array_length n) = n ≤ max_int32
Sends (raw_bytes bs) = length bs ≤ max_int32
Sends (bytes bs) = FitsBytes bs
Sends (string s) = length s ≤ max_int16
Sends (nullable_string s) = FitsString s
Sends (string_array ss) = (length ss ≤ max_int32) × All (λ s. length s ≤ max_int16) ss
Sends (int32_array vs) = length vs ≤ max_int32
Sends (int64_array vs) = length vs ≤ max_int32
Sends (push k) = ⊥
Sends pop = ⊥
Sends _ = Unit {0}

Sends-IsPlain : (op : PutOp) → Sends op → IsPlain op
Sends-IsPlain (push k) h = h
Sends-IsPlain pop h = h
Sends-IsPlain _ h = tt

All-IsPlain : (ops : List PutOp) → All Sends ops → All IsPlain ops
All-IsPlain [] h = tt
All-IsPlain (op ∷ ops) (h, hs) = (Sends-IsPlain op h, All-IsPlain ops hs)

abbrev Accepts : Outcome LenEncoder → Type 0
Accepts r = (e : LenEncoder) × (r ≡ ok e)

len_strings-Accepts :
    (ss : List Str) (e : LenEncoder)
    → All (λ s. length s ≤ max_int16) ss
    → Accepts (len_strings ss e)
unfolding len_strings len_string
len_strings-Accepts [] e h = (e, refl)
len_strings-Accepts (s ∷ ss) e (h, hs) =
    let (f, rest) = len_strings-Accepts ss (add_len (add_len e 2) (length s)) hs in
    (f, rw (ge→ltb max_int16 (length s) h) rest)

len_put-Accepts : (op : PutOp) (e : LenEncoder) → Sends op → Accepts (len_put op e)
unfolding len_put len_array_length len_raw_bytes len_string
len_put-Accepts (bool b) e h = (_, refl)
len_put-Accepts (int8 v) e h = (_, refl)
len_put-Accepts (int16 v) e h = (_, refl)
len_put-Accepts (int32 v) e h = (_, refl)
len_put-Accepts (int64 v) e h = (_, refl)
len_put-Accepts (array_length n) e h = (add_len e 4, rw (ge→ltb max_int32 n h) refl)
len_put-Accepts (raw_bytes bs) e h =
    (add_len e (length bs), rw (ge→ltb max_int32 (length bs) h) refl)
len_put-Accepts (bytes none) e h = (_, refl)
len_put-Accepts (bytes (some bs)) e h =
    (add_len (add_len e 4) (length bs), rw (ge→ltb max_int32 (length bs) h) refl)
len_put-Accepts (string s) e h =
    (add_len (add_len e 2) (length s), rw (ge→ltb max_int16 (length s) h) refl)
len_put-Accepts (nullable_string none) e h = (_, refl)
len_put-Accepts (nullable_string (some s)) e h =
    (add_len (add_len e 2) (length s), rw (ge→ltb max_int16 (length s) h) refl)
len_put-Accepts (string_array ss) e (h, hs) =
    let (f, rest) = len_strings-Accepts ss (add_len e 4) hs in
    (f, rw (ge→ltb max_int32 (length ss) h) rest)
len_put-Accepts (int32_array vs) e h =
    (add_len (add_len e 4) (4 * length vs), rw (ge→ltb max_int32 (length vs) h) refl)
len_put-Accepts (int64_array vs) e h =
    (add_len (add_len e 4) (8 * length vs), rw (ge→ltb max_int32 (length vs) h) refl)
len_put-Accepts (push k) e h = absurd h
len_put-Accepts pop e h = absurd h

len_run-Accepts : (ops : List PutOp) (e : LenEncoder) → All Sends ops → Accepts (len_run ops e)
unfolding len_run
len_run-Accepts [] e h = (e, refl)
len_run-Accepts (op ∷ ops) e (h, hs) =
    let (f, first) = len_put-Accepts op e h in
    let (g, rest) = len_run-Accepts ops f hs in (g, ap (λ r. r >>= len_run ops) first ∙ rest)

pub record Carries {ℓ} {A : Type ℓ} (m : Decode A) (ops : List PutOp) (a : A) : Type ℓ where
  pub sends : All Sends ops
  pub reads : Reads m (wires ops) a

pub All-append : (xs ys : List PutOp) → All Sends xs → All Sends ys → All Sends (xs ++ ys)
All-append [] ys hx hy = hy
All-append (x ∷ xs) ys (h, hx) hy = (h, All-append xs ys hx hy)

pub Carries-pure {ℓ} : {A : Type ℓ} (a : A) → Carries (pure a) [] a
Carries-pure a = record { sends = tt; reads = Reads-pure a }

-- Calls one after the other are read one after the other.
pub Carries-then {ℓ κ} :
    {A : Type ℓ} {B : Type κ} {m : Decode A} (f : A → Decode B) {xs ys : List PutOp} {a : A} {b : B}
    → Carries m xs a
    → Carries (f a) ys b
    → Carries (m >>>= f) (xs ++ ys) b
Carries-then {m} f {xs} {ys} {a} {b} hm hf = record {
  sends = All-append xs ys hm.sends hf.sends;
  reads =
      subst (λ bs. Reads (m >>>= f) bs b) (sym (wires-append xs ys))
        (Reads-bind m f (wires xs) (wires ys) a b hm.reads hf.reads);
}

-- The last read, handed to a constructor.
pub Carries-map {ℓ κ} :
    {A : Type ℓ} {B : Type κ} {m : Decode A} (f : A → B) {xs : List PutOp} {a : A}
    → Carries m xs a
    → Carries (m >>>= λ x. pure (f x)) xs (f a)
Carries-map {m} f {xs} {a} h = record {
  sends = h.sends;
  reads = Reads-map m f (wires xs) a h.reads;
}

-- One call, read by one method.
pub Carries-one {ℓ} :
    {A : Type ℓ} {m : Decode A} {op : PutOp} {a : A}
    → Sends op
    → Reads m (wire op) a
    → Carries m (op ∷ []) a
Carries-one {m} {op} {a} h r = record {
  sends = (h, tt);
  reads = subst (λ bs. Reads m bs a) (sym (append-nil (wire op))) r;
}

-- What a message comes to over the wire: what Decode returns on the bytes of Encode, and how many
-- bytes it leaves.
unfoldable pub transmit {ℓ} : {A : Type ℓ} → (List ℕ → ℕ) → List PutOp → Decode A → Outcome (A × ℕ)
transmit crc32 ops m = encode crc32 ops >>= λ bs.
    (m (new_decoder bs)).0 >>= λ a. ok (a, remaining (m (new_decoder bs)).1)

encode-wires :
    (crc32 : List ℕ → ℕ) (ops : List PutOp) → All Sends ops → encode crc32 ops ≡ ok (wires ops)
encode-wires crc32 ops h =
    let start : Writer = no_bytes in
    let (e, sized) = len_run-Accepts ops (record { len = 0 }) h in
    encode-eq-write_run crc32 ops
    ∙ ap (λ r. r >>= λ _. write_run crc32 ops start >>= λ w. ok w.out) sized
    ∙ ap (λ r. r >>= λ w. ok w.out) (write_run-plain crc32 ops start (All-IsPlain ops h))

pub transmit-Carries {ℓ} :
    {A : Type ℓ} (crc32 : List ℕ → ℕ) (ops : List PutOp) (m : Decode A) (a : A)
    → Carries m ops a
    → transmit crc32 ops m ≡ ok (a, 0)
unfolding transmit
transmit-Carries crc32 ops m a h =
    let bs = wires ops in
    let read : m (new_decoder bs) ≡ (ok a, skip (length bs) (new_decoder bs)) =
      h.reads.at (new_decoder bs) [] (sym (append-nil bs)) in
    ap (λ r. r >>= λ cs. (m (new_decoder cs)).0 >>= λ x. ok (x, remaining (m (new_decoder cs)).1))
      (encode-wires crc32 ops h.sends)
    ∙ ap (λ r. r.0 >>= λ x. ok (x, remaining r.1)) read
    ∙ ap (λ n. ok (a, n)) (omega arith)
