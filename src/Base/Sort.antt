-- ===== src/Base/Sort.antt =====
-- `Array.prototype.sort` with a comparison of numbers, which is stable.
use Prim.Native.Nat.{ℕ, ◌≤◌, ◌<◌}
use mathlib.Core.Logic.{◌≢◌, inl, inr}
use mathlib.Core.List.{List, [], ◌∷◌, ◌++◌, Perm}
use mathlib.Core.List.Perm
use native.Mathlib.Omega.{arith}
use cosmic_swingset.Base.Tests.{leb, if◌then◌else◌, Bool-cases, leb→le}
use cosmic_swingset.Base.Lists.{All, All-append, All-weaken}

module _ {ℓ} {A : Type ℓ} (key : A → ℕ) where
  pub place : A → List A → List A
  place x [] = x ∷ []
  place x (y ∷ ys) = if leb (key x) (key y) then x ∷ y ∷ ys else y ∷ place x ys

  unfoldable pub sort_by : List A → List A
  unfolding place
  sort_by [] = []
  sort_by (x ∷ xs) = place x (sort_by xs)

  -- From the first element on, no key is smaller than one before it.
  abbrev pub IsSorted : List A → Type 0
  IsSorted [] = Unit
  IsSorted (x ∷ xs) = All (λ y. key x ≤ key y) xs × IsSorted xs

  All-place : (P : A → Type 0) (x : A) (ys : List A) → P x → All P ys → All P (place x ys)
  unfolding place
  All-place P x [] p h = (p, tt)
  All-place P x (y ∷ ys) p h = ground (arith, All-place P x ys p h.1)

  pub All-sort_by : (P : A → Type 0) (xs : List A) → All P xs → All P (sort_by xs)
  unfolding sort_by
  All-sort_by P [] h = tt
  All-sort_by P (x ∷ xs) h = All-place P x (sort_by xs) h.0 (All-sort_by P xs h.1)

  place-IsSorted : (x : A) (ys : List A) → IsSorted ys → IsSorted (place x ys)
  unfolding place
  place-IsSorted x [] h = (tt, tt)
  place-IsSorted x (y ∷ ys) h = elim (Bool-cases (leb (key x) (key y))) [
    | inl e ↦ rw e ((leb→le _ _ e, All-weaken _ _ (λ z q. omega (arith, leb→le _ _ e)) ys h.0), h)
    | inr e ↦
        let over : key y ≤ key x = ground arith in
        rw e (All-place (λ z. key y ≤ key z) x ys over h.0, place-IsSorted x ys h.1)
  ]

  pub sort_by-IsSorted : (xs : List A) → IsSorted (sort_by xs)
  unfolding sort_by
  sort_by-IsSorted [] = tt
  sort_by-IsSorted (x ∷ xs) = place-IsSorted x (sort_by xs) (sort_by-IsSorted xs)

  place-perm : (x : A) (ys : List A) → Perm (place x ys) (x ∷ ys)
  unfolding place
  place-perm x [] = Perm.refl _
  place-perm x (y ∷ ys) = elim (Bool-cases (leb (key x) (key y))) [
    | inl e ↦ rw e (Perm.refl _)
    | inr e ↦ rw e (Perm.trans (Perm.cons y (place-perm x ys)) (Perm.swap x y ys))
  ]

  pub sort_by-perm : (xs : List A) → Perm (sort_by xs) xs
  unfolding sort_by
  sort_by-perm [] = Perm.refl []
  sort_by-perm (x ∷ xs) = Perm.trans (place-perm x (sort_by xs)) (Perm.cons x (sort_by-perm xs))

  -- The same with no two equal keys.
  abbrev pub IsStrict : List A → Type 0
  IsStrict [] = Unit
  IsStrict (x ∷ xs) = All (λ y. key x < key y) xs × IsStrict xs

  abbrev pub IsDistinct : List A → Type 0
  IsDistinct [] = Unit
  IsDistinct (x ∷ xs) = All (λ y. key x ≢ key y) xs × IsDistinct xs

  strict_of_distinct :
      (x : A) (xs : List A)
      → All (λ y. key x ≤ key y) xs
      → All (λ y. key x ≢ key y) xs
      → All (λ y. key x < key y) xs
  strict_of_distinct x [] h d = tt
  strict_of_distinct x (y ∷ ys) h d = (omega (arith, h.0, d.0), strict_of_distinct x ys h.1 d.1)

  IsStrict-of_IsSorted : (xs : List A) → IsSorted xs → IsDistinct xs → IsStrict xs
  IsStrict-of_IsSorted [] h d = tt
  IsStrict-of_IsSorted (x ∷ xs) h d =
      (strict_of_distinct x xs h.0 d.0, IsStrict-of_IsSorted xs h.1 d.1)

  place-IsDistinct :
      (x : A) (ys : List A) → All (λ y. key x ≢ key y) ys → IsDistinct ys → IsDistinct (place x ys)
  unfolding place
  place-IsDistinct x [] h d = (tt, tt)
  place-IsDistinct x (y ∷ ys) h d = elim (Bool-cases (leb (key x) (key y))) [
    | inl e ↦ rw e (h, d)
    | inr e ↦
        let apart : key y ≢ key x = omega (arith, h.0) in
        rw e (All-place (λ z. key y ≢ key z) x ys apart d.0, place-IsDistinct x ys h.1 d.1)
  ]

  sort_by-IsDistinct : (xs : List A) → IsDistinct xs → IsDistinct (sort_by xs)
  unfolding sort_by
  sort_by-IsDistinct [] d = tt
  sort_by-IsDistinct (x ∷ xs) d =
      place-IsDistinct x (sort_by xs) (All-sort_by _ xs d.0) (sort_by-IsDistinct xs d.1)

  pub sort_by-IsStrict : (xs : List A) → IsDistinct xs → IsStrict (sort_by xs)
  sort_by-IsStrict xs d =
      IsStrict-of_IsSorted (sort_by xs) (sort_by-IsSorted xs) (sort_by-IsDistinct xs d)

  All-of_place : (P : A → Type 0) (x : A) (ys : List A) → All P (place x ys) → P x × All P ys
  unfolding place
  All-of_place P x [] h = h
  All-of_place P x (y ∷ ys) h = ground (arith, All-of_place P x ys)

  pub All-of_sort_by : (P : A → Type 0) (xs : List A) → All P (sort_by xs) → All P xs
  unfolding sort_by
  All-of_sort_by P [] h = tt
  All-of_sort_by P (x ∷ xs) h =
      let (p, rest) = All-of_place P x (sort_by xs) h in (p, All-of_sort_by P xs rest)

-- Numbers, each above the one before.
abbrev pub IsIncreasing : List ℕ → Type 0
IsIncreasing = IsStrict (λ (n : ℕ). n)

pub IsIncreasing-append :
    (b : ℕ) (xs ys : List ℕ)
    → IsIncreasing xs
    → All (λ x. x ≤ b) xs
    → IsIncreasing ys
    → All (λ y. b < y) ys
    → IsIncreasing (xs ++ ys)
IsIncreasing-append b [] ys h le k lt = k
IsIncreasing-append b (x ∷ xs) ys h le k lt = (
  All-append _ xs ys h.0 (All-weaken _ _ (λ y p. omega (arith, p, le.0)) ys lt),
  IsIncreasing-append b xs ys h.1 le.1 k lt,
)
