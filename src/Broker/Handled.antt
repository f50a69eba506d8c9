-- ===== src/Broker/Handled.antt =====
-- What a handler of jocko/broker.go comes to.

-- A handler replies or panics.
pub data Handled (A : Type 0) : Type 0 where
  replied : A → Handled A
  panicked : Handled A

infixl 5 ◌>>=◌
abbrev pub ◌>>=◌ : {A B : Type 0} → Handled A → (A → Handled B) → Handled B
replied a >>= f = f a
panicked >>= f = panicked
