-- ===== src/Protocol/Decoder/Reads.antt =====
-- What the decoder reads: `Reads m bs a` says that `m`, on any decoder whose unread bytes begin with
-- `bs`, returns `a` and has read just `bs`.
use jocko.Common.{ℕ, ◌+◌, ◌^◌, ◌<◌, ◌≡◌, sym, ap, ap₂, subst, ◌∙◌, true, false, arith}
use jocko.Common.{List, [], ◌++◌, length, take, drop, leb, ltb}
use jocko.Common.{length-append, length-drop, drop-drop, drop-append_self, take-append_self}
use jocko.Common.Int.{ℤ, InWord, unsigned, signed, signed-unsigned, unsigned-lt}
use jocko.Protocol.Binary.{be_bytes, length-be_bytes, of_be, of_be-be_bytes}
use jocko.Protocol.Outcome.{ok}
use jocko.Protocol.Decoder
use jocko.Protocol.Decoder.{
  ByteDecoder, Decode, ◌>>=◌, ◌>>◌, pure, skip, remaining, at_offset, continue, uint, checked_uint,
}
use mathlib.Core.List.{append_assoc}

abbrev pub unread : ByteDecoder → List ℕ
unread d = drop d.off d.b

pub record Reads {ℓ} {A : Type ℓ} (m : Decode A) (bs : List ℕ) (a : A) : Type ℓ where
  pub at :
      (d : ByteDecoder) (tail : List ℕ) → unread d ≡ bs ++ tail → m d ≡ (ok a, skip (length bs) d)

pub unread-skip :
    (d : ByteDecoder) (bs tail : List ℕ)
    → unread d ≡ bs ++ tail
    → unread (skip (length bs) d) ≡ tail
unread-skip d bs tail h =
    sym (drop-drop d.off (length bs) d.b) ∙ ap (drop (length bs)) h ∙ drop-append_self bs tail

pub taken :
    (d : ByteDecoder) (bs tail : List ℕ) → unread d ≡ bs ++ tail → at_offset d (length bs) ≡ bs
taken d bs tail h = ap (take (length bs)) h ∙ take-append_self bs tail

pub remaining-eq :
    (d : ByteDecoder) (bs tail : List ℕ)
    → unread d ≡ bs ++ tail
    → remaining d ≡ length bs + length tail
remaining-eq d bs tail h = omega (arith, length-drop d.off d.b, ap length h, length-append bs tail)

skip-zero : (d : ByteDecoder) → skip 0 d ≡ d
skip-zero d = ap (λ n. record d { off = n }) (omega arith)

skip-skip :
    (d : ByteDecoder) (bs cs : List ℕ)
    → skip (length cs) (skip (length bs) d) ≡ skip (length (bs ++ cs)) d
skip-skip d bs cs = ap (λ n. record d { off = n }) (omega (arith, length-append bs cs))

pub Reads-pure {ℓ} : {A : Type ℓ} (a : A) → Reads (pure a) [] a
Reads-pure a = record { at = λ d tail h. ap (λ e. (ok a, e)) (sym (skip-zero d)) }

pub Reads-bind {ℓ κ} :
    {A : Type ℓ} {B : Type κ} (m : Decode A) (f : A → Decode B) (bs cs : List ℕ) (a : A) (b : B)
    → Reads m bs a
    → Reads (f a) cs b
    → Reads (m >>= f) (bs ++ cs) b
Reads-bind m f bs cs a b hm hf = record {
  at = λ d tail h.
      let whole : unread d ≡ bs ++ (cs ++ tail) = h ∙ append_assoc bs cs tail in
      ap (λ r. continue r.0 f r.1) (hm.at d (cs ++ tail) whole)
      ∙ hf.at (skip (length bs) d) tail (unread-skip d bs (cs ++ tail) whole)
      ∙ ap (λ e. (ok b, e)) (skip-skip d bs cs);
}

-- A read of one value, handed to a constructor.
pub Reads-map {ℓ κ} :
    {A : Type ℓ} {B : Type κ} (m : Decode A) (f : A → B) (bs : List ℕ) (a : A)
    → Reads m bs a
    → Reads (m >>= λ x. pure (f x)) bs (f a)
Reads-map m f bs a hm = record {
  at = λ d tail h. ap (λ r. continue r.0 (λ x. pure (f x)) r.1) (hm.at d tail h);
}

pub uint-Reads : (w v : ℕ) → 0 < w → v < 256 ^ w → Reads (uint w) (be_bytes w v) v
unfolding uint
uint-Reads w v wide fits = record {
  at = λ d tail h.
      let room : leb (d.off + w) (length d.b) ≡ true =
        ground (arith, remaining-eq d (be_bytes w v) tail h, length-be_bytes w v) in
      let value : of_be (at_offset d w) ≡ v =
        ap (λ n. of_be (at_offset d n)) (sym (length-be_bytes w v))
        ∙ ap of_be (taken d (be_bytes w v) tail h)
        ∙ of_be-be_bytes w v fits in
      rw room (ap₂ (λ (x n : ℕ). (ok x, skip n d)) value (sym (length-be_bytes w v)));
}

pub checked_uint-Reads : (w v : ℕ) → 0 < w → v < 256 ^ w → Reads (checked_uint w) (be_bytes w v) v
unfolding checked_uint
checked_uint-Reads w v wide fits = record {
  at = λ d tail h.
      let room : ltb (remaining d) w ≡ false =
        ground (arith, remaining-eq d (be_bytes w v) tail h, length-be_bytes w v) in
      rw room ((uint-Reads w v wide fits).at d tail h);
}

-- A number read as a signed integer is the one that was written, if that fits the word.
pub signed-Reads :
    (m : Decode ℕ) (w half : ℕ) (z : ℤ)
    → Reads m (be_bytes w (unsigned half z)) (unsigned half z)
    → InWord half z
    → Reads (m >>= λ v. pure (signed half v)) (be_bytes w (unsigned half z)) z
signed-Reads m w half z hm fits =
    subst (Reads (m >>= λ v. pure (signed half v)) (be_bytes w (unsigned half z)))
      (signed-unsigned half z fits)
      (Reads-map m (signed half) (be_bytes w (unsigned half z)) (unsigned half z) hm)

pub int8-Reads : (z : ℤ) → InWord (2 ^ 7) z → Reads Decoder.int8 (be_bytes 1 (unsigned (2 ^ 7) z)) z
unfolding Decoder.int8
int8-Reads z h =
    signed-Reads (uint 1) 1 (2 ^ 7) z
      (uint-Reads 1 _ (omega arith) (omega (arith, unsigned-lt (2 ^ 7) z))) h

pub int16-Reads :
    (z : ℤ) → InWord (2 ^ 15) z → Reads Decoder.int16 (be_bytes 2 (unsigned (2 ^ 15) z)) z
unfolding Decoder.int16
int16-Reads z h =
    signed-Reads (uint 2) 2 (2 ^ 15) z
      (uint-Reads 2 _ (omega arith) (omega (arith, unsigned-lt (2 ^ 15) z))) h

pub int32-Reads :
    (z : ℤ) → InWord (2 ^ 31) z → Reads Decoder.int32 (be_bytes 4 (unsigned (2 ^ 31) z)) z
unfolding Decoder.int32
int32-Reads z h =
    signed-Reads (checked_uint 4) 4 (2 ^ 31) z
      (checked_uint-Reads 4 _ (omega arith) (omega (arith, unsigned-lt (2 ^ 31) z))) h

pub int64-Reads :
    (z : ℤ) → InWord (2 ^ 63) z → Reads Decoder.int64 (be_bytes 8 (unsigned (2 ^ 63) z)) z
unfolding Decoder.int64
int64-Reads z h =
    signed-Reads (checked_uint 8) 8 (2 ^ 63) z
      (checked_uint-Reads 8 _ (omega arith) (omega (arith, unsigned-lt (2 ^ 63) z))) h

-- `Reads-bind` with what the two proofs determine left out, for a do block of reads.
pub Reads-then {ℓ κ} :
    {A : Type ℓ} {B : Type κ} {m : Decode A} (f : A → Decode B) {bs cs : List ℕ} {a : A} {b : B}
    → Reads m bs a
    → Reads (f a) cs b
    → Reads (m >>= f) (bs ++ cs) b
Reads-then {m} f {bs} {cs} {a} {b} hm hf = Reads-bind m f bs cs a b hm hf
