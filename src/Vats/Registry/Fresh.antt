-- ===== src/Vats/Registry/Fresh.antt =====
-- lib/ag-solo/vats/vat-registry.js: the ids that `set` gives, over any calls of it.
use mathlib.Core.Path.{subst}
use cosmic_swingset.Vats.Registry.{Registry, make_registry, get, set, reverse_get, set_all}
use cosmic_swingset.Base.{
  nat_beq, if◌then◌else◌, All, HasEquals, nat_eq, string_eq, list_eq, ℕ, ◌+◌, ◌<◌, ◌≡◌, refl, sym,
  ap, ◌∙◌, none, some, List, [], ◌∷◌, ◌++◌, arith,
}
use cosmic_swingset.Base.Dict.{
  lookup, lookup-insert, lookup-insert_self, lookup-insert_ne, contains_iff_lookup,
}
use cosmic_swingset.Base.Text.{Text, to_hex, to_hex-injective, to_hex-plain}

-- What stands behind the last `#`.
abbrev after_hash : Text → Text → Text
after_hash tail [] = tail
after_hash tail (c ∷ cs) = after_hash (if nat_beq c b'#' then cs else tail) cs

after_hash-plain : (tail cs : Text) → All (λ c. 47 < c) cs → after_hash tail cs ≡ tail
after_hash-plain tail [] h = refl
after_hash-plain tail (c ∷ cs) h = ground (arith, after_hash-plain tail cs h.1)

after_hash-entry_id :
    (tail name cs : Text) → All (λ c. 47 < c) cs → after_hash tail (name ++ b'#' ∷ cs) ≡ cs
after_hash-entry_id tail [] cs h = after_hash-plain cs cs h
after_hash-entry_id tail (c ∷ name) cs h =
    after_hash-entry_id (if nat_beq c b'#' then name ++ b'#' ∷ cs else tail) name cs h

-- Two ids with different counters differ, also if a name holds a `#`.
entry_id-injective : (a b : Text) (m n : ℕ) → a ++ b'#' ∷ to_hex m ≡ b ++ b'#' ∷ to_hex n → m ≡ n
entry_id-injective a b m n e = to_hex-injective m n (
    sym (after_hash-entry_id [] a (to_hex m) (to_hex-plain m))
    ∙ ap (after_hash []) e
    ∙ after_hash-entry_id [] b (to_hex n) (to_hex-plain n))

module _ {ℓ} {O : Type ℓ} ⦃e : HasEquals O⦄ where
  -- No id that a later call makes is in the map.
  abbrev pub IsUnused : Registry O → Type ℓ
  IsUnused r = (name : Text) (j : ℕ) → r.i < j → lookup (name ++ b'#' ∷ to_hex j) r.map ≡ none

  make_registry-IsUnused : IsUnused make_registry
  unfolding lookup
  make_registry-IsUnused name j h = refl

  set-IsUnused : (name : Text) (obj : O) (r : Registry O) → IsUnused r → IsUnused (set name obj r).1
  unfolding set
  set-IsUnused name obj r h other j lt =
      lookup-insert_ne (name ++ b'#' ∷ to_hex (r.i + 1)) (other ++ b'#' ∷ to_hex j) obj r.map
        (λ same.
          let n : r.i + 1 ≡ j = entry_id-injective name other (r.i + 1) j same in
          absurd (omega arith))
      ∙ h other j (omega arith)

  set_all-IsUnused :
      (calls : List (Text × O)) (r : Registry O) → IsUnused r → IsUnused (set_all calls r)
  unfolding set_all
  set_all-IsUnused [] r h = h
  set_all-IsUnused ((name, obj) ∷ rest) r h =
      set_all-IsUnused rest (set name obj r).1 (set-IsUnused name obj r h)

  set-get :
      (name id : Text) (obj was : O) (r : Registry O)
      → IsUnused r
      → get id r ≡ some was
      → get id (set name obj r).1 ≡ some was
  unfolding get set
  set-get name id obj was r h g =
      let fresh_id = name ++ b'#' ∷ to_hex (r.i + 1) in
      lookup-insert_ne fresh_id id obj r.map (λ same.
        let clash : lookup id r.map ≡ none =
          subst (λ k. lookup k r.map ≡ none) same (h name (r.i + 1) (omega arith)) in
        cc)
      ∙ g

  set_all-get :
      (calls : List (Text × O)) (id : Text) (was : O) (r : Registry O)
      → IsUnused r
      → get id r ≡ some was
      → get id (set_all calls r) ≡ some was
  unfolding set_all
  set_all-get [] id was r h g = g
  set_all-get ((name, obj) ∷ rest) id was r h g =
      set_all-get rest id was (set name obj r).1 (set-IsUnused name obj r h)
        (set-get name id obj was r h g)

  -- In a registry made by any calls of `set`, the id that a call returns was free before it, and
  -- gets the object of that call after any further calls, with any names.
  pub get-set :
      (before after : List (Text × O)) (name : Text) (obj : O)
      → let r : Registry O = set_all before make_registry in
        let (id, s) = set name obj r in (get id r ≡ none) × (get id (set_all after s) ≡ some obj)
  get-set before after name obj =
      let r : Registry O = set_all before make_registry in
      let h : IsUnused r = set_all-IsUnused before make_registry make_registry-IsUnused in
      (
        unfold get set in h name (r.i + 1) (omega arith),
        set_all-get after (set name obj r).0 obj (set name obj r).1 (set-IsUnused name obj r h)
            (unfold get set in lookup-insert_self (name ++ b'#' ∷ to_hex (r.i + 1)) obj r.map),
      )

  set-reverse_get :
      (name id : Text) (obj other : O) (r : Registry O)
      → reverse_get obj r ≡ some id
      → reverse_get obj (set name other r).1 ≡ some id
  unfolding reverse_get set
  set-reverse_get name id obj other r g = ground (
    arith,
    contains_iff_lookup other r.rmap,
    e.equals_iff other obj,
    lookup-insert other obj (name ++ b'#' ∷ to_hex (r.i + 1)) r.rmap,
  )

  set-reverse_get_new :
      (name : Text) (obj : O) (r : Registry O)
      → reverse_get obj r ≡ none
      → reverse_get obj (set name obj r).1 ≡ some (set name obj r).0
  unfolding reverse_get set
  set-reverse_get_new name obj r h = ground (
    arith,
    contains_iff_lookup obj r.rmap,
    lookup-insert_self obj (name ++ b'#' ∷ to_hex (r.i + 1)) r.rmap,
  )

  set_all-reverse_get :
      (calls : List (Text × O)) (obj : O) (id : Text) (s : Registry O)
      → reverse_get obj s ≡ some id
      → reverse_get obj (set_all calls s) ≡ some id
  unfolding set_all
  set_all-reverse_get [] obj id s g = g
  set_all-reverse_get ((n, o) ∷ rest) obj id s g =
      set_all-reverse_get rest obj id (set n o s).1 (set-reverse_get n id obj o s g)

  -- An object keeps the first id that it was given: if it had none before a call of `set` for it,
  -- `reverseGet` returns the id of that call from then on.
  reverse_get-set :
      (after : List (Text × O)) (name : Text) (obj : O) (r : Registry O)
      → reverse_get obj r ≡ none
      → let (id, s) = set name obj r in reverse_get obj (set_all after s) ≡ some id
  reverse_get-set after name obj r h =
      set_all-reverse_get after obj (set name obj r).0 (set name obj r).1
        (set-reverse_get_new name obj r h)
