-- ===== src/Base/Equality.antt =====
-- Equality tests as an interface: Rust's `PartialEq` where it is the equality of values.
use bgpd_rs.Base.Tests.{nat_eq, nat_eq_iff}
use Prim.Native.Nat.{ℕ}
use mathlib.Core.Path.{◌≡◌, refl, ap₂}
use mathlib.Core.List.{List, [], ◌∷◌}
use mathlib.Core.Logic.{◌↔◌}
use mathlib.Core.Bool.{Bool, true, false}
use native.Mathlib.Omega.{arith}

infix 50 ◌==◌
pub record Eq {ℓ} (A : Type ℓ) : Type ℓ where
  pub eq : A → A → Bool
  pub eq_iff : (a b : A) → (eq a b ≡ true) ↔ (a ≡ b)

abbrev pub ◌==◌ {ℓ} : {A : Type ℓ} ⦃e : Eq A⦄ → A → A → Bool
◌==◌ ⦃e⦄ = e.eq

abbrev pub dec_beq {ℓ} : {A : Type ℓ} → Discrete A → A → A → Bool
dec_beq d a b = elim (d a b) [ yes _ ↦ true | no _ ↦ false ]

pub dec_beq_iff {ℓ} : {A : Type ℓ} (d : Discrete A) (a b : A) → (dec_beq d a b ≡ true) ↔ (a ≡ b)
dec_beq_iff d a b = ground arith

-- `derive(PartialEq)`, from a decision of equality.
abbrev pub derived_eq {ℓ} : {A : Type ℓ} → Discrete A → Eq A
derived_eq d = record { eq = dec_beq d; eq_iff = dec_beq_iff d }

instance abbrev pub nat_Eq : Eq ℕ
nat_Eq = record { eq = nat_eq; eq_iff = nat_eq_iff }

module _ {ℓ} {A : Type ℓ} ⦃e : Eq A⦄ where
  pub ==_refl : (a : A) → (a == a) ≡ true
  ==_refl a = (e.eq_iff a a).1 refl

pub head-eq {ℓ} : {A : Type ℓ} {x y : A} {xs ys : List A} → x ∷ xs ≡ y ∷ ys → x ≡ y
head-eq e = cc

pub tail-eq {ℓ} : {A : Type ℓ} {x y : A} {xs ys : List A} → x ∷ xs ≡ y ∷ ys → xs ≡ ys
tail-eq e = cc

abbrev pub both {ℓ} :
    {A : Type ℓ} {x y : A} {xs ys : List A} → Dec (x ≡ y) → Dec (xs ≡ ys) → Dec (x ∷ xs ≡ y ∷ ys)
both (yes p) (yes q) = yes (ap₂ ◌∷◌ p q)
both (yes p) (no q) = no (λ e. q (tail-eq e))
both (no p) _ = no (λ e. p (head-eq e))

-- The library's decision for lists, in a form that computes.
unfoldable pub List-discrete {ℓ} : {A : Type ℓ} → Discrete A → Discrete (List A)
List-discrete d [] [] = yes refl
List-discrete d [] (y ∷ ys) = no (λ e. cc)
List-discrete d (x ∷ xs) [] = no (λ e. cc)
List-discrete d (x ∷ xs) (y ∷ ys) = both (d x y) (List-discrete d xs ys)
