-- ===== src/Vats/Registry.antt =====
-- `makeRegistry` of lib/ag-solo/vats/vat-registry.js, over any type of objects that are compared
-- by identity. The promises for a name or an object have resolved when a method runs.
pub mod Fresh
mod Tests
use cosmic_swingset.Base.{
  if◌then◌else◌, HasEquals, nat_eq, string_eq, list_eq, ℕ, ◌+◌, Option, List, [], ◌∷◌, ◌++◌,
}
use cosmic_swingset.Base.Dict.{Dict, lookup, contains, insert}
use cosmic_swingset.Base.Text.{Text, to_hex}

pub record Registry {ℓ} (O : Type ℓ) : Type ℓ where
  pub map : Dict Text O
  pub rmap : Dict O Text
  pub i : ℕ

-- `${name}#${i.toString(16)}`
abbrev pub entry_id : Text → ℕ → Text
entry_id name i = name ++ b'#' ∷ to_hex i

module _ {ℓ} {O : Type ℓ} ⦃e : HasEquals O⦄ where
  abbrev pub make_registry : Registry O
  make_registry = record { map = []; rmap = []; i = 0 }

  pub get : Text → Registry O → Option O
  get id r = lookup id r.map

  pub set : Text → O → Registry O → Text × Registry O
  set name obj r =
      let i = r.i + 1 in
      let id = entry_id name i in
      (
        id,
        record {
          map = insert id obj r.map;
          rmap = if contains obj r.rmap then r.rmap else insert obj id r.rmap;
          i = i;
        },
      )

  pub reverse_get : O → Registry O → Option Text
  reverse_get obj r = lookup obj r.rmap

  -- Any number of calls of `set`, in order.
  pub set_all : List (Text × O) → Registry O → Registry O
  set_all [] r = r
  set_all ((name, obj) ∷ rest) r = set_all rest (set name obj r).1
