-- ===== src/ChainSdk/Shuffle.antt =====
-- `shuffle` of lib/ag-solo/chain-cosmos-sdk.js: Fisher and Yates, over the random numbers that
-- `Math.random` gives, as a function from the round's `i` to the chosen `j`.
mod Tests
use cosmic_swingset.Base.{
  nat_beq, if◌then◌else◌, Option-cases, length, get_elem?, ℕ, zero, suc, ◌+◌, ◌-◌, ◌≡◌, refl, ◌∙◌,
  inl, inr, Bool, none, some, List, [], ◌∷◌, arith,
}

module _ {A : Type 0} where
  -- `a[i] = v`, inside the array
  abbrev pub set : List A → ℕ → A → List A
  set [] i v = []
  set (x ∷ xs) zero v = v ∷ xs
  set (x ∷ xs) (suc i) v = x ∷ set xs i v

  -- `const x = a[i]; a[i] = a[j]; a[j] = x`
  pub swap : ℕ → ℕ → List A → List A
  swap i j a = elim (get_elem? a i) [
    | none ↦ a
    | some x ↦ elim (get_elem? a j) [ none ↦ a | some y ↦ set (set a i y) j x ]
  ]

  -- the rounds from `i` down to 1
  pub shuffle_from : ℕ → (ℕ → ℕ) → List A → List A
  unfolding swap
  shuffle_from zero choose a = a
  shuffle_from (suc i) choose a = shuffle_from i choose (swap (suc i) (choose (suc i)) a)

  pub shuffle : (ℕ → ℕ) → List A → List A
  unfolding shuffle_from
  shuffle choose a = shuffle_from (length a - 1) choose a

  module _ (same : A → A → Bool) where
    abbrev pub count : A → List A → ℕ
    count a [] = 0
    count a (x ∷ xs) = (if same a x then 1 else 0) + count a xs

    count-set :
        (a v x : A) (xs : List A) (i : ℕ)
        → get_elem? xs i ≡ some x
        → count a (set xs i v) + (if same a x then 1 else 0)
          ≡ count a xs + (if same a v then 1 else 0)
    count-set a v x [] i h = cc
    count-set a v x (y ∷ ys) zero h = ground arith
    count-set a v x (y ∷ ys) (suc i) h = omega (arith, count-set a v x ys i h)

    get_elem?-set :
        (v x y : A) (xs : List A) (i j : ℕ)
        → get_elem? xs i ≡ some x
        → get_elem? xs j ≡ some y
        → get_elem? (set xs i v) j ≡ some (if nat_beq i j then v else y)
    get_elem?-set v x y [] i j h k = cc
    get_elem?-set v x y (z ∷ zs) zero zero h k = refl
    get_elem?-set v x y (z ∷ zs) zero (suc j) h k = ground arith
    get_elem?-set v x y (z ∷ zs) (suc i) zero h k = ground arith
    get_elem?-set v x y (z ∷ zs) (suc i) (suc j) h k =
        ground (arith, get_elem?-set v x y zs i j h k)

    count-swap : (a : A) (i j : ℕ) (xs : List A) → count a (swap i j xs) ≡ count a xs
    unfolding swap
    count-swap a i j xs = elim (Option-cases (get_elem? xs i)) [
      | inl e ↦ ground (arith, e)
      | inr (x, e) ↦ elim (Option-cases (get_elem? xs j)) [
        | inl f ↦ ground (arith, e, f)
        | inr (y, f) ↦ ground (
          arith,
          e,
          f,
          count-set a y x xs i e,
          get_elem?-set y x y xs i j e f,
          count-set a x y (set xs i y) j,
        )
      ]
    ]

    count-shuffle_from :
        (a : A) (i : ℕ) (choose : ℕ → ℕ) (xs : List A)
        → count a (shuffle_from i choose xs) ≡ count a xs
    unfolding shuffle_from
    count-shuffle_from a zero choose xs = refl
    count-shuffle_from a (suc i) choose xs =
        count-shuffle_from a i choose (swap (suc i) (choose (suc i)) xs)
        ∙ count-swap a (suc i) (choose (suc i)) xs

    -- Whatever the random choices, the shuffled array holds every element as often as before, by
    -- any test that tells elements apart.
    count-shuffle :
        (a : A) (choose : ℕ → ℕ) (xs : List A) → count a (shuffle choose xs) ≡ count a xs
    unfolding shuffle
    count-shuffle a choose xs = count-shuffle_from a (length xs - 1) choose xs
