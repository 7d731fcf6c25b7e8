-- ===== src/Base/Dict.antt =====
-- A `Map`, or an object used as one: an association list in insertion order, each key once.
use mathlib.Core.Path.{◌≡◌, refl}
use mathlib.Core.Logic.{◌≢◌, ◌↔◌}
use mathlib.Core.Bool.{Bool, true, false, ◌||◌}
use mathlib.Core.Option.{Option, none, some}
use mathlib.Core.List.{List, [], ◌∷◌}
use native.Mathlib.Omega.{arith}
use cosmic_swingset.Base.Tests.{if◌then◌else◌}
use cosmic_swingset.Base.Equality.{HasEquals, ◌==◌, ==_refl}

abbrev pub Dict {ℓ κ} : Type ℓ → Type κ → Type (ℓ ⊔ κ)
Dict K V = List (K × V)

module _ {ℓ κ} {K : Type ℓ} {V : Type κ} ⦃e : HasEquals K⦄ where
  -- `m.get(k)`
  unfoldable pub lookup : K → Dict K V → Option V
  lookup k [] = none
  lookup k ((i, v) ∷ m) = if i == k then some v else lookup k m

  -- `m.has(k)`
  unfoldable pub contains : K → Dict K V → Bool
  contains k [] = false
  contains k ((j, v) ∷ m) = if j == k then true else contains k m

  -- `m.set(k, v)`: an old key keeps its place, a new one goes to the end.
  unfoldable pub insert : K → V → Dict K V → Dict K V
  insert k v [] = (k, v) ∷ []
  insert k v ((j, w) ∷ m) = if j == k then (j, v) ∷ m else (j, w) ∷ insert k v m

  -- `m.delete(k)`
  unfoldable pub erase : K → Dict K V → Dict K V
  erase k [] = []
  erase k ((j, w) ∷ m) = if j == k then m else (j, w) ∷ erase k m

  pub lookup-insert :
      (k other : K) (v : V) (m : Dict K V)
      → lookup other (insert k v m) ≡ (if k == other then some v else lookup other m)
  unfolding lookup insert
  lookup-insert k other v [] = refl
  lookup-insert k other v ((i, old) ∷ m) = ground (
    arith,
    lookup-insert k other v m,
    e.equals_iff i other,
    e.equals_iff i k,
    e.equals_iff k other,
  )

  pub lookup-insert_self : (k : K) (v : V) (m : Dict K V) → lookup k (insert k v m) ≡ some v
  lookup-insert_self k v m = simp (lookup-insert, ==_refl)

  pub lookup-insert_ne :
      (k j : K) (v : V) (m : Dict K V) → k ≢ j → lookup j (insert k v m) ≡ lookup j m
  lookup-insert_ne k j v m h = ground (arith, lookup-insert k j v m, e.equals_iff k j)

  pub contains-insert :
      (k other : K) (v : V) (m : Dict K V)
      → contains other (insert k v m) ≡ (k == other || contains other m)
  unfolding contains insert
  contains-insert k other v [] = ground arith
  contains-insert k other v ((i, old) ∷ m) = ground (
    arith,
    contains-insert k other v m,
    e.equals_iff i other,
    e.equals_iff i k,
    e.equals_iff k other,
  )

  pub contains_iff_lookup : (k : K) (m : Dict K V) → (contains k m ≡ false) ↔ (lookup k m ≡ none)
  unfolding lookup contains
  contains_iff_lookup k [] = ground arith
  contains_iff_lookup k ((j, v) ∷ m) = ground (arith, contains_iff_lookup k m)

  pub lookup-erase_ne : (k j : K) (m : Dict K V) → k ≢ j → lookup j (erase k m) ≡ lookup j m
  unfolding lookup erase
  lookup-erase_ne k j [] h = refl
  lookup-erase_ne k j ((i, w) ∷ m) h =
      ground (arith, e.equals_iff i k, e.equals_iff i j, lookup-erase_ne k j m h)

  -- No key is listed twice, as in every `Map`.
  abbrev pub HasDistinctKeys : Dict K V → Type κ
  HasDistinctKeys [] = Unit
  HasDistinctKeys ((k, v) ∷ m) = (lookup k m ≡ none) × HasDistinctKeys m

  pub insert-HasDistinctKeys :
      (k : K) (v : V) (m : Dict K V) → HasDistinctKeys m → HasDistinctKeys (insert k v m)
  unfolding insert lookup
  insert-HasDistinctKeys k v [] h = ground arith
  insert-HasDistinctKeys k v ((j, w) ∷ m) h = ground (
    arith,
    e.equals_iff j k,
    e.equals_iff k j,
    insert-HasDistinctKeys k v m h.1,
    lookup-insert k j v m,
  )

  pub erase-HasDistinctKeys :
      (k : K) (m : Dict K V) → HasDistinctKeys m → HasDistinctKeys (erase k m)
  unfolding erase
  erase-HasDistinctKeys k [] h = tt
  erase-HasDistinctKeys k ((j, w) ∷ m) h = ground (
    arith,
    e.equals_iff j k,
    e.equals_iff k j,
    erase-HasDistinctKeys k m h.1,
    lookup-erase_ne k j m,
  )

  pub lookup-erase_self : (k : K) (m : Dict K V) → HasDistinctKeys m → lookup k (erase k m) ≡ none
  unfolding lookup erase
  lookup-erase_self k [] h = refl
  lookup-erase_self k ((j, w) ∷ m) h = ground (arith, e.equals_iff j k, lookup-erase_self k m h.1)

  pub lookup-erase-none : (k j : K) (m : Dict K V) → lookup k m ≡ none → lookup k (erase j m) ≡ none
  unfolding lookup erase
  lookup-erase-none k j [] h = refl
  lookup-erase-none k j ((i, w) ∷ m) h = ground (arith, lookup-erase-none k j m)
