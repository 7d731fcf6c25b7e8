-- ===== src/Setup/Placement/Tests.antt =====
-- A run of `doInit`.
use cosmic_swingset.Setup.Placement.{
  Round, new_placement, back_to_menu, allocate, commit, set_placement, play_round, play, nodes_of,
  Row, collate, all_nodes, do_init,
}
use cosmic_swingset.Setup.Placement.Numbered.{IsNumberedIn, owners, once_from, do_init-numbers}
use cosmic_swingset.Base.{
  length, ℕ, ◌≡◌, All, nat_eq, string_eq, list_eq, refl, true, some, List, [], ◌∷◌,
}
use cosmic_swingset.Base.Dict.{lookup, insert}
use cosmic_swingset.Base.Text.{codes, text_le, digits_fuel, to_decimal, sort_texts}

abbrev rounds : List Round
rounds =
    new_placement (codes "docker") true
      (record { datacenter = codes "default"; num_nodes = 1 } ∷ [])
    ∷ new_placement (codes "ocean") true (
        record { datacenter = codes "sfo"; num_nodes = 2 }
        ∷ record { datacenter = codes "ams"; num_nodes = 1 }
        ∷ [])
    ∷ back_to_menu
    ∷ []

abbrev rows : List Row
rows =
    record { placement = codes "docker1"; offset = some 0; datacenters = codes "default" ∷ [] }
    ∷ record {
      placement = codes "ocean1";
      offset = some 1;
      datacenters = codes "ams" ∷ codes "sfo" ∷ codes "sfo" ∷ [];
    }
    ∷ []

do_init-numbers_example :
    ((k : ℕ) → owners k rows ≡ once_from 0 (length (all_nodes rows)) k)
    × All (IsNumberedIn (all_nodes rows)) rows
unfolding do_init play play_round commit allocate set_placement collate nodes_of lookup insert
    to_decimal digits_fuel sort_texts text_le
do_init-numbers_example = do_init-numbers rounds rows refl
