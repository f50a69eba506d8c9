-- ===== src/Protocol/Codec.antt =====
-- From the calls of the two interfaces to whole messages: what a decoder reads of a list of plain
-- calls, and the round trip through `encode`.
pub mod Arrays
pub mod Carries
pub mod Fields
use jocko.Common.{
  ℕ, zero, suc, ◌+◌, ◌≤◌, ◌≡◌, refl, sym, ap, ap₂, subst, ◌∙◌, Bool, true, false, arith,
}
use jocko.Common.{List, [], ◌∷◌, ◌++◌, length, All, if◌then◌else◌}
use jocko.Protocol.Outcome.{ok, ◌>>=◌, >>=-eq-ok, ok-injective}
use jocko.Protocol.Encoder.{PutOp, encode, len_run}
use jocko.Protocol.Encoder.Writer.{Writer, no_bytes, wire, write, write_run}
use jocko.Protocol.Encoder.Appends.{IsPlain, append_to}
use jocko.Protocol.Encoder.Agree.{encode-eq-write_run, write-plain}
use jocko.Protocol.Decoder
use jocko.Protocol.Decoder.{ByteDecoder, Decode, new_decoder, skip}
use jocko.Protocol.Decoder.Reads.{Reads}
use jocko.Protocol.Decoder.Values.{items}
use mathlib.Core.List.{append_assoc, append-nil}

-- The bytes of a list of calls.
abbrev pub wires : List PutOp → List ℕ
wires [] = []
wires (op ∷ ops) = wire op ++ wires ops

pub wires-append : (xs ys : List PutOp) → wires (xs ++ ys) ≡ wires xs ++ wires ys
wires-append [] ys = refl
wires-append (x ∷ xs) ys =
    ap (λ bs. wire x ++ bs) (wires-append xs ys) ∙ sym (append_assoc (wire x) (wires xs) (wires ys))

-- The calls of a loop over a slice.
abbrev pub each {ℓ} : {A : Type ℓ} → (A → List PutOp) → List A → List PutOp
each f [] = []
each f (x ∷ xs) = f x ++ each f xs

pub wires-each {ℓ} :
    {A : Type ℓ} (f : A → List PutOp) (xs : List A)
    → wires (each f xs) ≡ items (λ x. wires (f x)) xs
wires-each f [] = refl
wires-each f (x ∷ xs) =
    wires-append (f x) (each f xs) ∙ ap (λ bs. wires (f x) ++ bs) (wires-each f xs)

pub IsPlain-append : (xs ys : List PutOp) → All IsPlain xs → All IsPlain ys → All IsPlain (xs ++ ys)
IsPlain-append [] ys hx hy = hy
IsPlain-append (x ∷ xs) ys hx hy = (hx.0, IsPlain-append xs ys hx.1 hy)

pub IsPlain-each {ℓ} :
    {A : Type ℓ} (f : A → List PutOp) (xs : List A)
    → ((x : A) → All IsPlain (f x))
    → All IsPlain (each f xs)
IsPlain-each f [] h = tt
IsPlain-each f (x ∷ xs) h = IsPlain-append (f x) (each f xs) (h x) (IsPlain-each f xs h)

module _ (crc32 : List ℕ → ℕ) where
  pub write_run-plain :
      (ops : List PutOp) (w : Writer)
      → All IsPlain ops
      → write_run crc32 ops w ≡ ok (append_to w (wires ops))
  unfolding write_run
  write_run-plain [] w h = ap (λ bs. ok (record w { out = bs })) (sym (append-nil w.out))
  write_run-plain (op ∷ ops) w h =
      ap (λ r. r >>= write_run crc32 ops) (write-plain crc32 op w h.0)
      ∙ write_run-plain ops (append_to w (wire op)) h.1
      ∙ ap (λ bs. ok (record w { out = bs })) (append_assoc w.out (wire op) (wires ops))

  pub encode-plain :
      (ops : List PutOp) (bs : List ℕ) → All IsPlain ops → encode crc32 ops ≡ ok bs → wires ops ≡ bs
  encode-plain ops bs h e =
      let start : Writer = no_bytes in
      let (l, sized, run) =
        >>=-eq-ok (len_run ops (record { len = 0 }))
          (λ _. write_run crc32 ops start >>= λ w. ok w.out)
          (sym (encode-eq-write_run crc32 ops) ∙ e) in
      ok-injective (sym (ap (λ r. r >>= λ w. ok w.out) (write_run-plain ops start h)) ∙ run)

  -- A decoder that reads the bytes of some plain calls reads the message that Encode made of them,
  -- to its end.
  pub decode-encode {ℓ} :
      {A : Type ℓ} (ops : List PutOp) (m : Decode A) (a : A) (bs : List ℕ)
      → All IsPlain ops
      → Reads m (wires ops) a
      → encode crc32 ops ≡ ok bs
      → m (new_decoder bs) ≡ (ok a, skip (length bs) (new_decoder bs))
  decode-encode ops m a bs h hm e =
      subst (λ xs. m (new_decoder xs) ≡ (ok a, skip (length xs) (new_decoder xs)))
        (encode-plain ops bs h e)
        (hm.at (new_decoder (wires ops)) [] (sym (append-nil (wires ops))))
