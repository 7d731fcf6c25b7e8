-- ===== src/Base/Equality.antt =====
-- `===` on keys, as an interface with instances for numbers, texts and lists.
use Prim.Native.Nat.{ℕ}
use Prim.Native.String.{String}
use mathlib.Core.Path.{◌≡◌, refl}
use mathlib.Core.Logic.{◌↔◌}
use mathlib.Core.Bool.{Bool, true, false, ◌&&◌}
use mathlib.Core.List.{List, [], ◌∷◌}
use native.Mathlib.Omega.{arith}
use text.Mathlib.Text.{◌==◌ as str_eq}
use text.Mathlib.TextEquality.{eq_iff}
use cosmic_swingset.Base.Tests.{nat_beq, nat_beq_iff}

pub record HasEquals {ℓ} (A : Type ℓ) : Type ℓ where
  pub equals : A → A → Bool
  pub equals_iff : (a b : A) → (equals a b ≡ true) ↔ (a ≡ b)

infix 50 ◌==◌
abbrev pub ◌==◌ {ℓ} : {A : Type ℓ} ⦃e : HasEquals A⦄ → A → A → Bool
◌==◌ ⦃e⦄ = e.equals

pub ==_iff {ℓ} : {A : Type ℓ} ⦃e : HasEquals A⦄ (a b : A) → ((a == b) ≡ true) ↔ (a ≡ b)
==_iff ⦃e⦄ = e.equals_iff

pub ==_refl {ℓ} : {A : Type ℓ} ⦃e : HasEquals A⦄ (a : A) → (a == a) ≡ true
==_refl ⦃e⦄ a = (e.equals_iff a a).1 refl

instance abbrev pub nat_eq : HasEquals ℕ
nat_eq = record { equals = nat_beq; equals_iff = nat_beq_iff }

instance abbrev pub string_eq : HasEquals String
string_eq = record { equals = str_eq; equals_iff = eq_iff }

module _ {ℓ} {A : Type ℓ} where
  abbrev pub list_beq : HasEquals A → List A → List A → Bool
  list_beq e [] [] = true
  list_beq e [] (_ ∷ _) = false
  list_beq e (_ ∷ _) [] = false
  list_beq e (a ∷ as') (b ∷ bs) = e.equals a b && list_beq e as' bs

  pub list_beq_iff : (e : HasEquals A) (xs ys : List A) → (list_beq e xs ys ≡ true) ↔ (xs ≡ ys)
  list_beq_iff e [] [] = (λ _. refl, λ _. refl)
  list_beq_iff e [] (y ∷ ys) = (λ h. cc, λ h. cc)
  list_beq_iff e (x ∷ xs) [] = (λ h. cc, λ h. cc)
  list_beq_iff e (x ∷ xs) (y ∷ ys) = ground (arith, e.equals_iff x y, list_beq_iff e xs ys)

  instance abbrev pub list_eq : ⦃e : HasEquals A⦄ → HasEquals (List A)
  list_eq ⦃e⦄ = record { equals = list_beq e; equals_iff = list_beq_iff e }
