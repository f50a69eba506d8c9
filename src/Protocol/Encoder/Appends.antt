-- ===== src/Protocol/Encoder/Appends.antt =====
-- The second pass: each call of ByteEncoder that is no Push or Pop appends its wire bytes, if the
-- buffer has room for them.
use jocko.Common.{ℕ, suc, ◌+◌, ◌^◌, ◌≡◌, sym, ap, ap₂, ◌∙◌, Bool, true, false, arith}
use jocko.Common.{none, some, List, [], ◌∷◌, ◌++◌, length, replicate, Str, leb, ltb}
use jocko.Common.{length-append, length-replicate}
use jocko.Common.Int.{ℤ, unsigned}
use jocko.Protocol.Binary.{be_bytes, length-be_bytes, write_at, write_at-end}
use jocko.Protocol.Outcome.{Outcome, ok, ◌>>=◌}
use jocko.Protocol.Encoder.{
  PushKind, PutOp, bool, int8, int16, int32, int64, array_length, raw_bytes, bytes, string,
  nullable_string, string_array, int32_array, int64_array, push, pop, ByteEncoder, put_uint,
  put_copy, byte_string, byte_strings, byte_ints, byte_bool, byte_put,
}
use jocko.Protocol.Encoder.Writer.{Writer, wire, wire_string, wire_strings, wire_ints}
use mathlib.Core.List.{append_assoc, append-nil}

-- A byte encoder that has written `w` and has `free` bytes left.
abbrev pub enc : Writer → ℕ → ByteEncoder
enc w free = record { b = w.out ++ replicate free 0; off = length w.out; stack = w.open_fields }

abbrev pub append_to : Writer → List ℕ → Writer
append_to w bs = record w { out = w.out ++ bs }

pub length-enc : (w : Writer) (n : ℕ) → length (w.out ++ replicate n 0) ≡ length w.out + n
length-enc w n = omega (arith, length-append w.out (replicate n 0), length-replicate {A = ℕ} n 0)

pub ByteEncoder-eq :
    (b b' : List ℕ) (off off' : ℕ) (st : List (PushKind × ℕ))
    → b ≡ b'
    → off ≡ off'
    → ◌≡◌ {A = ByteEncoder}
        (record { b = b; off = off; stack = st })
        (record { b = b'; off = off'; stack = st })
ByteEncoder-eq b b' off off' st p q = cc

written :
    (w : Writer) (bs : List ℕ) (k : ℕ)
    → ◌≡◌ {A = ByteEncoder}
        (record (enc w (length bs + k)) {
          b = write_at (w.out ++ replicate (length bs + k) 0) (length w.out) bs;
          off = length w.out + length bs;
        })
        (enc (append_to w bs) k)
written w bs k =
    ByteEncoder-eq _ _ _ _ w.open_fields
      (write_at-end w.out bs k ∙ sym (append_assoc w.out bs (replicate k 0)))
      (sym (length-append w.out bs))

put_copy-enc :
    (w : Writer) (bs : List ℕ) (k : ℕ)
    → put_copy bs (enc w (length bs + k)) ≡ ok (enc (append_to w bs) k)
unfolding put_copy
put_copy-enc w bs k =
    let fits : leb (length w.out) (length (w.out ++ replicate (length bs + k) 0)) ≡ true =
      ground (arith, length-enc w (length bs + k)) in
    rw fits (ap ok (written w bs k))

put_uint-enc :
    (w : Writer) (n v k : ℕ)
    → put_uint n v (enc w (n + k)) ≡ ok (enc (append_to w (be_bytes n v)) k)
unfolding put_uint
put_uint-enc w n v k =
    let bs = be_bytes n v in
    let fits : leb (length w.out + n) (length (w.out ++ replicate (n + k) 0)) ≡ true =
      ground (arith, length-enc w (n + k)) in
    let same_bytes : write_at (w.out ++ replicate (n + k) 0) (length w.out) bs
        ≡ (w.out ++ bs) ++ replicate k 0 =
      ap (λ m. write_at (w.out ++ replicate (m + k) 0) (length w.out) bs)
        (sym (length-be_bytes n v))
      ∙ write_at-end w.out bs k
      ∙ sym (append_assoc w.out bs (replicate k 0)) in
    rw fits (
      ap ok (
        ByteEncoder-eq _ _ _ _ w.open_fields same_bytes
          (omega (arith, length-append w.out bs, length-be_bytes n v))))

-- A run of calls that append, one after the other.
unfoldable pub Appends : (ByteEncoder → Outcome ByteEncoder) → List ℕ → Type 0
Appends f bs = (w : Writer) (k : ℕ) → f (enc w (length bs + k)) ≡ ok (enc (append_to w bs) k)

Appends-put_uint : (n v : ℕ) → Appends (put_uint n v) (be_bytes n v)
unfolding Appends
Appends-put_uint n v w k =
    ap (λ m. put_uint n v (enc w (m + k))) (length-be_bytes n v) ∙ put_uint-enc w n v k

Appends-put_copy : (bs : List ℕ) → Appends (put_copy bs) bs
unfolding Appends
Appends-put_copy bs w k = put_copy-enc w bs k

Appends-skip : Appends (λ e. ok e) []
unfolding Appends
Appends-skip w k = ap ok (
    ByteEncoder-eq _ _ _ _ w.open_fields
      (ap₂ (λ (xs : List ℕ) (m : ℕ). xs ++ replicate m 0) (sym (append-nil w.out)) (omega arith))
      (ap length (sym (append-nil w.out))))

Appends-then :
    (f g : ByteEncoder → Outcome ByteEncoder) (bs cs : List ℕ)
    → Appends f bs
    → Appends g cs
    → Appends (λ e. f e >>= g) (bs ++ cs)
unfolding Appends
Appends-then f g bs cs hf hg w k =
    let room : length (bs ++ cs) + k ≡ length bs + (length cs + k) =
      omega (arith, length-append bs cs) in
    ap (λ m. f (enc w m) >>= g) room
    ∙ ap (λ r. r >>= g) (hf w (length cs + k))
    ∙ hg (append_to w bs) k
    ∙ ap (λ xs. ok (enc (record w { out = xs }) k)) (append_assoc w.out bs cs)

Appends-string : (s : Str) → Appends (byte_string s) (wire_string s)
unfolding byte_string
Appends-string s =
    Appends-then (put_uint 2 (length s)) (put_copy s) (be_bytes 2 (length s)) s
      (Appends-put_uint 2 (length s)) (Appends-put_copy s)

Appends-strings : (ss : List Str) → Appends (byte_strings ss) (wire_strings ss)
unfolding byte_strings
Appends-strings [] = Appends-skip
Appends-strings (s ∷ ss) =
    Appends-then (byte_string s) (byte_strings ss) (wire_string s) (wire_strings ss)
      (Appends-string s) (Appends-strings ss)

Appends-ints : (n half : ℕ) (vs : List ℤ) → Appends (byte_ints n half vs) (wire_ints n half vs)
unfolding byte_ints
Appends-ints n half [] = Appends-skip
Appends-ints n half (v ∷ vs) =
    Appends-then (put_uint n (unsigned half v)) (byte_ints n half vs) (be_bytes n (unsigned half v))
      (wire_ints n half vs) (Appends-put_uint n (unsigned half v)) (Appends-ints n half vs)

Appends-counted :
    (n : ℕ) (f : ByteEncoder → Outcome ByteEncoder) (bs : List ℕ)
    → Appends f bs
    → Appends (λ e. put_uint 4 n e >>= f) (be_bytes 4 n ++ bs)
Appends-counted n f bs = Appends-then (put_uint 4 n) f (be_bytes 4 n) bs (Appends-put_uint 4 n)

Appends-bool : (v : Bool) → Appends (byte_bool v) (wire (bool v))
unfolding Appends byte_bool
Appends-bool false w k = ap ok (
    ByteEncoder-eq _ _ _ _ w.open_fields
      (ap (λ m. w.out ++ replicate m 0) (let e : 1 + k ≡ suc k = omega arith in e)
        ∙ sym (append_assoc w.out (0 ∷ []) (replicate k 0)))
      (sym (length-append w.out (0 ∷ []))))
Appends-bool true w k =
    let fits : ltb (length w.out) (length (w.out ++ replicate (1 + k) 0)) ≡ true =
      ground (arith, length-enc w (1 + k)) in
    rw fits (ap ok (written w (1 ∷ []) k))

-- The calls that neither open nor close a field.
abbrev pub IsPlain : PutOp → Type 0
IsPlain (push k) = ⊥
IsPlain pop = ⊥
IsPlain _ = Unit {0}

pub Appends-byte_put :
    (crc32 : List ℕ → ℕ) (op : PutOp) → IsPlain op → Appends (byte_put crc32 op) (wire op)
unfolding byte_put
Appends-byte_put crc32 (bool v) h = Appends-bool v
Appends-byte_put crc32 (int8 v) h = Appends-put_uint 1 _
Appends-byte_put crc32 (int16 v) h = Appends-put_uint 2 _
Appends-byte_put crc32 (int32 v) h = Appends-put_uint 4 _
Appends-byte_put crc32 (int64 v) h = Appends-put_uint 8 _
Appends-byte_put crc32 (array_length n) h = Appends-put_uint 4 n
Appends-byte_put crc32 (raw_bytes bs) h = Appends-put_copy bs
Appends-byte_put crc32 (bytes none) h = Appends-put_uint 4 _
Appends-byte_put crc32 (bytes (some bs)) h = Appends-counted _ _ bs (Appends-put_copy bs)
Appends-byte_put crc32 (string s) h = Appends-string s
Appends-byte_put crc32 (nullable_string none) h = Appends-put_uint 2 _
Appends-byte_put crc32 (nullable_string (some s)) h = Appends-string s
Appends-byte_put crc32 (string_array ss) h = Appends-counted _ _ _ (Appends-strings ss)
Appends-byte_put crc32 (int32_array vs) h = Appends-counted _ _ _ (Appends-ints 4 (2 ^ 31) vs)
Appends-byte_put crc32 (int64_array vs) h = Appends-counted _ _ _ (Appends-ints 8 (2 ^ 63) vs)
Appends-byte_put crc32 (push k) h = absurd h
Appends-byte_put crc32 pop h = absurd h
