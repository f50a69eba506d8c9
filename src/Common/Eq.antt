-- ===== src/Common/Eq.antt =====
-- Types with a Boolean equality.
use jocko.Common.Tests.{◌==◌, Str, str_eq, str_eq_refl, eq_of_str_eq}
use jocko.Common.Int.{ℤ, pos, negsuc}
use mathlib.Core.Path.{◌≡◌, refl, ap₂, subst}
use mathlib.Core.Logic.{◌↔◌}
use mathlib.Core.Bool.{Bool, true, false, ◌&&◌}
use native.Mathlib.Omega.{arith}

pub record Eq (A : Type 0) : Type 0 where
  pub beq : A → A → Bool
  pub beq_iff : (a b : A) → (beq a b ≡ true) ↔ (a ≡ b)

pub str_eq_iff : (s t : Str) → (str_eq s t ≡ true) ↔ (s ≡ t)
str_eq_iff s t = (eq_of_str_eq s t, λ e. subst (λ u. str_eq s u ≡ true) e (str_eq_refl s))

instance abbrev pub str_Eq : Eq Str
str_Eq = record { beq = str_eq; beq_iff = str_eq_iff }

abbrev pub int_eq : ℤ → ℤ → Bool
int_eq (pos a) (pos b) = a == b
int_eq (negsuc a) (negsuc b) = a == b
int_eq (pos a) (negsuc b) = false
int_eq (negsuc a) (pos b) = false

pub int_eq_iff : (a b : ℤ) → (int_eq a b ≡ true) ↔ (a ≡ b)
int_eq_iff (pos a) (pos b) = (λ h. ground arith, λ h. ground arith)
int_eq_iff (negsuc a) (negsuc b) = (λ h. ground arith, λ h. ground arith)
int_eq_iff (pos a) (negsuc b) = (λ h. cc, λ h. cc)
int_eq_iff (negsuc a) (pos b) = (λ h. cc, λ h. cc)

instance abbrev pub int_Eq : Eq ℤ
int_Eq = record { beq = int_eq; beq_iff = int_eq_iff }

pub pair_eq_iff : (p q : Str × ℤ) → ((str_eq p.0 q.0 && int_eq p.1 q.1) ≡ true) ↔ (p ≡ q)
pair_eq_iff (s, a) (t, b) = (
  λ h.
      ap₂ (λ (u : Str) (c : ℤ). (u, c)) ((str_eq_iff s t).0 (ground arith))
        ((int_eq_iff a b).0 (ground arith)),
  λ h.
      subst (λ (r : Str × ℤ). (str_eq s r.0 && int_eq a r.1) ≡ true) h
        (ground (arith, str_eq_refl s, (int_eq_iff a a).1 refl)),
)

instance abbrev pub pair_Eq : Eq (Str × ℤ)
pair_Eq = record { beq = λ p q. str_eq p.0 q.0 && int_eq p.1 q.1; beq_iff = pair_eq_iff }
