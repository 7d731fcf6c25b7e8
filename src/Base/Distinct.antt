-- ===== src/Base/Distinct.antt =====
-- Lists with no element twice, and lists in another order.
use mathlib.Core.Bool.{Bool, true, not, ◌&&◌}
use mathlib.Core.List.{List, [], ◌∷◌}
use mathlib.Core.Path.{◌≡◌, refl, sym, ap, ◌∙◌}
use native.Mathlib.Omega.{arith}
use cosmic_swingset.Base.Equality.{HasEquals, ◌==◌, ==_iff}
use cosmic_swingset.Base.Lists.{any}

module _ {ℓ} {A : Type ℓ} where
  -- The second list has the elements of the first, in another order: neighbours change places.
  pub data Reordered : List A → List A → Type ℓ where
    none_left : Reordered [] []
    behind : {x y : A} {xs ys : List A} → x ≡ y → Reordered xs ys → Reordered (x ∷ xs) (y ∷ ys)
    swapped :
        {x y x' y' : A} {xs : List A} → x ≡ x' → y ≡ y' → Reordered (x ∷ y ∷ xs) (y' ∷ x' ∷ xs)
    after_that : {xs ys zs : List A} → Reordered xs ys → Reordered ys zs → Reordered xs zs

  pub any-Reordered : (p : A → Bool) {xs ys : List A} → Reordered xs ys → any p xs ≡ any p ys
  any-Reordered p none_left = refl
  any-Reordered p (behind e d) = rw (e, any-Reordered p d) refl
  any-Reordered p (swapped e f) = rw (e, f) (ground arith)
  any-Reordered p (after_that c d) = any-Reordered p c ∙ any-Reordered p d

module _ {ℓ} {A : Type ℓ} ⦃e : HasEquals A⦄ where
  abbrev pub distinct : List A → Bool
  distinct [] = true
  distinct (x ∷ xs) = not (any (λ y. x == y) xs) && distinct xs

  ==_comm : (x y : A) → (x == y) ≡ (y == x)
  ==_comm x y = ground (arith, ==_iff x y, ==_iff y x)

  distinct_swap : (x y : A) (xs : List A) → distinct (x ∷ y ∷ xs) ≡ distinct (y ∷ x ∷ xs)
  distinct_swap x y xs = ground (arith, ==_comm x y)

  pub distinct-Reordered : {xs ys : List A} → Reordered xs ys → distinct xs ≡ distinct ys
  distinct-Reordered none_left = refl
  distinct-Reordered (behind {x} f d) =
      rw (sym f, any-Reordered (λ y. x == y) d, distinct-Reordered d) refl
  distinct-Reordered (swapped {x} {y} {x' = x'} {xs = xs} f g) =
      distinct_swap x y xs ∙ ap (λ a. distinct (y ∷ a ∷ xs)) f ∙ ap (λ b. distinct (b ∷ x' ∷ xs)) g
  distinct-Reordered (after_that c d) = distinct-Reordered c ∙ distinct-Reordered d
