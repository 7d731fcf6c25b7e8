-- ===== src/Vats/Registry/Tests.antt =====
-- Runs of lib/ag-solo/vats/vat-registry.js.
use cosmic_swingset.Vats.Registry.{Registry, make_registry, get, set, set_all}
use cosmic_swingset.Vats.Registry.Fresh.{get-set}
use cosmic_swingset.Base.{nat_eq, string_eq, list_eq, ℕ, ◌≡◌, refl, none, some, List, [], ◌∷◌}
use cosmic_swingset.Base.Dict.{contains, insert}
use cosmic_swingset.Base.Text.{Text, codes, digits_fuel, to_hex}

abbrev named : List (Text × ℕ)
named = (codes "moola", 7) ∷ (codes "moola", 8) ∷ []

get-set_example :
    let r : Registry ℕ = set_all named make_registry in
    let (id, s) = set (codes "moola") 9 r in (get id r ≡ none) × (get id (set_all named s) ≡ some 9)
get-set_example = get-set named named (codes "moola") 9

third_id : (set (codes "moola") 9 (set_all named make_registry)).0 ≡ codes "moola#3"
unfolding set set_all to_hex digits_fuel contains insert
third_id = refl
