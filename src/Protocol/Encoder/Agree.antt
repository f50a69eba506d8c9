-- ===== src/Protocol/Encoder/Agree.antt =====
-- `encode` agrees with the writer: the length pass sizes the buffer exactly, and the second pass
-- fills it with what the writer appends.
use jocko.Common.{ℕ, suc, ◌+◌, ◌≤◌, ◌≡◌, refl, sym, ap, subst, ◌∙◌, true, arith}
use jocko.Common.{none, some, List, [], ◌∷◌, ◌++◌, length, replicate}
use jocko.Common.{length-append}
use jocko.Protocol.Binary.{be_bytes, length-be_bytes, write_at, write_at-append, length-write_at}
use jocko.Protocol.Outcome.{Outcome, ok, ◌>>=◌, >>=-eq-ok, ok-injective, >>=_assoc, >>=_congr}
use jocko.Protocol.Encoder.{
  PushKind, size_field, crc_field, PutOp, bytes, push, pop, field_value, fill_in_range, LenEncoder,
  len_put, len_run, ByteEncoder, byte_pop, byte_put, byte_run, encode,
}
use jocko.Protocol.Encoder.Writer.{Writer, no_bytes, wire, write, write_run, close_field, no_bytes}
use jocko.Common.{All, take, drop}
use jocko.Protocol.Encoder.Lengths.{len_put-eq}
use jocko.Protocol.Encoder.Appends.{
  enc, append_to, length-enc, ByteEncoder-eq, IsPlain, Appends, Appends-byte_put,
}
use mathlib.Core.List.{append_assoc, append-nil}

-- Every open field lies within what is written.
IsOpen : Writer → Type 0
IsOpen w = All (λ (p : PushKind × ℕ). p.1 + 4 ≤ length w.out) w.open_fields

IsOpen-longer :
    (fields : List (PushKind × ℕ)) (n m : ℕ)
    → n ≤ m
    → All (λ (p : PushKind × ℕ). p.1 + 4 ≤ n) fields
    → All (λ (p : PushKind × ℕ). p.1 + 4 ≤ m) fields
IsOpen-longer [] n m h a = tt
IsOpen-longer ((k, start) ∷ rest) n m h a = (omega arith, IsOpen-longer rest n m h a.1)

total : List PutOp → ℕ
total [] = 0
total (op ∷ ops) = length (wire op) + total ops

len_run-eq :
    (ops : List PutOp) (e e' : LenEncoder) → len_run ops e ≡ ok e' → e'.len ≡ e.len + total ops
unfolding len_run total
len_run-eq [] e e' h = ground arith
len_run-eq (op ∷ ops) e e' h =
    let (f, first, rest) = >>=-eq-ok (len_put op e) (len_run ops) h in
    omega (arith, len_put-eq op e f first, len_run-eq ops f e' rest)

module _ (crc32 : List ℕ → ℕ) where
  pub write-plain :
      (op : PutOp) (w : Writer) → IsPlain op → write crc32 op w ≡ ok (append_to w (wire op))
  unfolding write
  write-plain (push k) w h = absurd h
  write-plain pop w h = absurd h
  write-plain _ w h = refl

  plain_step :
      (op : PutOp) (w : Writer) (n : ℕ)
      → IsPlain op
      → byte_put crc32 op (enc w (length (wire op) + n))
        ≡ (write crc32 op w >>= λ w'. ok (enc w' n))
  unfolding Appends
  plain_step op w n h =
      Appends-byte_put crc32 op h w n
      ∙ sym (ap (λ r. r >>= λ w'. ok (enc w' n)) (write-plain op w h))

  push_step :
      (k : PushKind) (w : Writer) (n : ℕ)
      → byte_put crc32 (push k) (enc w (4 + n)) ≡ (write crc32 (push k) w >>= λ w'. ok (enc w' n))
  unfolding byte_put write
  push_step k w n = ap ok (
      ByteEncoder-eq _ _ _ _ ((k, length w.out) ∷ w.open_fields)
        (ap (λ m. w.out ++ replicate m 0)
            (let e : 4 + n ≡ suc (suc (suc (suc n))) = omega arith in e)
          ∙ sym (append_assoc w.out (0 ∷ 0 ∷ 0 ∷ 0 ∷ []) (replicate n 0)))
        (sym (length-append w.out (0 ∷ 0 ∷ 0 ∷ 0 ∷ []))))

  take-within : (xs ys : List ℕ) → take (length xs) (xs ++ ys) ≡ take (length xs) xs
  take-within [] ys = refl
  take-within (x ∷ xs) ys = ap (λ zs. x ∷ zs) (take-within xs ys)

  field_value-within :
      (k : PushKind) (start : ℕ) (out zs : List ℕ)
      → field_value crc32 k start (length out) (out ++ zs)
        ≡ field_value crc32 k start (length out) out
  unfolding field_value
  field_value-within size_field start out zs = refl
  field_value-within crc_field start out zs =
      ap (λ ys. crc32 (drop (start + 4) ys)) (take-within out zs)

  pop_fields :
      (fields st : List (PushKind × ℕ)) (out : List ℕ) (n : ℕ)
      → All (λ (p : PushKind × ℕ). p.1 + 4 ≤ length out) fields
      → byte_pop crc32 fields (record { b = out ++ replicate n 0; off = length out; stack = st })
        ≡ (close_field crc32 fields out >>= λ w'. ok (enc w' n))
  unfolding byte_pop close_field
  pop_fields [] st out n h = refl
  pop_fields ((k, start) ∷ rest) st out n h =
      let b = out ++ replicate n 0 in
      let value = field_value crc32 k start (length out) out in
      let w : Writer = record { out = out; open_fields = st } in
      let patched : write_at b start (be_bytes 4 (field_value crc32 k start (length out) b))
          ≡ write_at out start (be_bytes 4 value) ++ replicate n 0 =
        ap (λ v. write_at b start (be_bytes 4 v)) (field_value-within k start out (replicate n 0))
        ∙ write_at-append out (replicate n 0) start (be_bytes 4 value)
            (omega (arith, length-be_bytes 4 value)) in
      rw (fits k (length-enc w n)) (
        ap ok (
          ByteEncoder-eq _ _ _ _ rest patched (sym (length-write_at out start (be_bytes 4 value)))))
    where
      fits :
          (k : PushKind)
          → length (out ++ replicate n 0) ≡ length out + n
          → fill_in_range k start (length out) (out ++ replicate n 0) ≡ true
      fits size_field e = ground arith
      fits crc_field e = ground arith

  pop_step :
      (w : Writer) (n : ℕ)
      → IsOpen w
      → byte_put crc32 pop (enc w (0 + n)) ≡ (write crc32 pop w >>= λ w'. ok (enc w' n))
  unfolding byte_put write IsOpen
  pop_step w n h =
      ap (λ m. byte_pop crc32 w.open_fields (enc w m)) (omega arith)
      ∙ pop_fields w.open_fields w.open_fields w.out n h

  put_step :
      (op : PutOp) (w : Writer) (n : ℕ)
      → IsOpen w
      → byte_put crc32 op (enc w (length (wire op) + n))
        ≡ (write crc32 op w >>= λ w'. ok (enc w' n))
  put_step (push k) w n h = push_step k w n
  put_step pop w n h = pop_step w n h
  put_step (bytes none) w n h = plain_step (bytes none) w n tt
  put_step (bytes (some bs)) w n h = plain_step (bytes (some bs)) w n tt
  put_step op w n h = plain_step op w n tt

  -- What is open stays within what is written.
  close_field-IsOpen :
      (fields : List (PushKind × ℕ)) (out : List ℕ) (w' : Writer)
      → All (λ (p : PushKind × ℕ). p.1 + 4 ≤ length out) fields
      → close_field crc32 fields out ≡ ok w'
      → IsOpen w'
  unfolding close_field IsOpen
  close_field-IsOpen [] out w' h e = cc
  close_field-IsOpen ((k, start) ∷ rest) out w' h e =
      subst IsOpen (ok-injective e)
        (IsOpen-longer rest (length out) _ (omega (arith, length-write_at out start _)) h.1)

  append_to-IsOpen : (w : Writer) (bs : List ℕ) → IsOpen w → IsOpen (append_to w bs)
  unfolding IsOpen
  append_to-IsOpen w bs h =
      IsOpen-longer w.open_fields (length w.out) _ (omega (arith, length-append w.out bs)) h

  plain-IsOpen :
      (op : PutOp) (w w' : Writer) → IsPlain op → IsOpen w → write crc32 op w ≡ ok w' → IsOpen w'
  plain-IsOpen op w w' p h e =
      subst IsOpen (ok-injective (sym (write-plain op w p) ∙ e)) (append_to-IsOpen w (wire op) h)

  write-IsOpen : (op : PutOp) (w w' : Writer) → IsOpen w → write crc32 op w ≡ ok w' → IsOpen w'
  unfolding write IsOpen
  write-IsOpen (push k) w w' h e =
      let bs : List ℕ = 0 ∷ 0 ∷ 0 ∷ 0 ∷ [] in
      subst IsOpen (ok-injective e) (omega (arith, length-append w.out bs), append_to-IsOpen w bs h)
  write-IsOpen pop w w' h e = close_field-IsOpen w.open_fields w.out w' h e
  write-IsOpen (bytes none) w w' h e = plain-IsOpen (bytes none) w w' tt h e
  write-IsOpen op w w' h e = plain-IsOpen op w w' tt h e

  byte_run-eq :
      (ops : List PutOp) (w : Writer) (n : ℕ)
      → IsOpen w
      → byte_run crc32 ops (enc w (total ops + n)) ≡ (write_run crc32 ops w >>= λ w'. ok (enc w' n))
  unfolding byte_run write_run total
  byte_run-eq [] w n h = ap (λ m. ok (enc w m)) (omega arith)
  byte_run-eq (op ∷ ops) w n h =
      let last : Writer → Outcome ByteEncoder = λ w'. ok (enc w' n) in
      let room : length (wire op) + total ops + n ≡ length (wire op) + (total ops + n) =
        omega arith in
      ap (λ m. byte_put crc32 op (enc w m) >>= byte_run crc32 ops) room
      ∙ ap (λ r. r >>= byte_run crc32 ops) (put_step op w (total ops + n) h)
      ∙ >>=_assoc (write crc32 op w) (λ w'. ok (enc w' (total ops + n))) (byte_run crc32 ops)
      ∙ >>=_congr (write crc32 op w) (λ w'. byte_run crc32 ops (enc w' (total ops + n)))
          (λ w'. write_run crc32 ops w' >>= last)
          (λ w' e. byte_run-eq ops w' n (write-IsOpen op w w' h e))
      ∙ sym (>>=_assoc (write crc32 op w) (write_run crc32 ops) last)

  filled :
      (ops : List PutOp) (l : LenEncoder)
      → len_run ops (record { len = 0 }) ≡ ok l
      → (byte_run crc32 ops (record { b = replicate l.len 0; off = 0; stack = [] }) >>= λ e. ok e.b)
        ≡ (write_run crc32 ops no_bytes >>= λ w. ok w.out)
  unfolding IsOpen
  filled ops l h =
      let size : l.len ≡ total ops + 0 = omega (arith, len_run-eq ops _ l h) in
      ap (λ m. byte_run crc32 ops (enc no_bytes m) >>= λ e. ok e.b) size
      ∙ ap (λ r. r >>= λ e. ok e.b) (byte_run-eq ops no_bytes 0 tt)
      ∙ >>=_assoc (write_run crc32 ops no_bytes) (λ w. ok (enc w 0)) (λ e. ok e.b)
      ∙ >>=_congr (write_run crc32 ops no_bytes) _ _ (λ w _. ap ok (append-nil w.out))

  -- For every sequence of encoder calls, Encode returns the error of the first call that the length
  -- pass refuses, and otherwise exactly what the writer, which has no buffer, produces.
  pub encode-eq-write_run :
      (ops : List PutOp)
      → encode crc32 ops
        ≡ (len_run ops (record { len = 0 }) >>= λ _. write_run crc32 ops no_bytes >>= λ w. ok w.out)
  unfolding encode
  encode-eq-write_run ops = >>=_congr (len_run ops (record { len = 0 })) _ _ (λ l h. filled ops l h)
