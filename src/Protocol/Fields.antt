-- ===== src/Protocol/Fields.antt =====
-- What the messages of protocol/ share: fields that depend on the version, and times in milliseconds.
use jocko.Common.{ℕ, zero, suc, ◌+◌, ◌-◌, ◌*◌, ◌/◌, Bool, true, false, List, [], leb}
use jocko.Common.Int.{ℤ, pos, negsuc}
use jocko.Protocol.Outcome.{Outcome, ok, err, panic}
use jocko.Protocol.Encoder.{PutOp}
use jocko.Protocol.Decoder
use jocko.Protocol.Decoder.{Decode, ◌>>=◌, pure}

-- The test `version >= n` for n > 0.
abbrev pub at_least : ℕ → ℤ → Bool
at_least n (pos v) = leb n v
at_least n (negsuc v) = false

-- A field that is on the wire from some version on.
abbrev pub when : Bool → List PutOp → List PutOp
when true ops = ops
when false ops = []

-- A field that is not read keeps the zero value of its type.
abbrev pub optional {ℓ} : {A : Type ℓ} → Bool → Decode A → A → Decode A
optional true m zero_value = m
optional false m zero_value = pure zero_value

-- A time.Duration is a number of nanoseconds; the division drops the remainder.
abbrev pub negated : ℕ → ℤ
negated zero = pos 0
negated (suc k) = negsuc k

abbrev pub to_millis : ℤ → ℤ
to_millis (pos n) = pos (n / 1000000)
to_millis (negsuc n) = negated ((n + 1) / 1000000)

abbrev pub of_millis : ℤ → ℤ
of_millis (pos n) = pos (n * 1000000)
of_millis (negsuc n) = negsuc ((n + 1) * 1000000 - 1)

-- int32(d / time.Millisecond), and back.
abbrev pub put_duration : ℤ → PutOp
put_duration d = PutOp.int32 (to_millis d)

unfoldable pub duration : Decode ℤ
duration = do millis ← Decoder.int32; pure (of_millis millis)

-- A time.Time is the number of its nanoseconds since 1970, which UnixNano returns if an int64
-- holds it. The zero time is the start of the year 1.
abbrev pub zero_time : ℤ
zero_time = negsuc 62135596799999999999

abbrev pub put_time : ℤ → PutOp
put_time t = PutOp.int64 (to_millis t)

unfoldable pub time : Decode ℤ
time = do millis ← Decoder.int64; pure (of_millis millis)

-- PutInt8(1) or PutInt8(0)
abbrev pub put_flag : Bool → PutOp
put_flag true = PutOp.int8 (pos 1)
put_flag false = PutOp.int8 (pos 0)

-- `p.ISR, err = d.Int32Array()` with an error that nobody looks at.
abbrev pub unchecked {ℓ} : {A : Type ℓ} → Outcome (List A) → Outcome (List A)
unchecked (ok a) = ok a
unchecked (err e) = ok []
unchecked panic = panic

unfoldable pub or_nil {ℓ} : {A : Type ℓ} → Decode (List A) → Decode (List A)
or_nil m d = (unchecked (m d).0, (m d).1)
