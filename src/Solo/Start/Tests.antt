-- ===== src/Solo/Start/Tests.antt =====
-- Runs of `start`.
use cosmic_swingset.Base.Text.{codes}
use cosmic_swingset.Solo.Start.{
  Connection, chain, http, start_one, start_all, connected, connect_all, start_connections,
  match_contract, pair_of,
}
use cosmic_swingset.Solo.Start.Checked.{is_ok}
use cosmic_swingset.Solo.Start.Uploaded.{zoe, parse_name_path-pair_of}
use cosmic_swingset.Upload.{parse_name_path}
use cosmic_swingset.Outbound.{State, add_delivery_target}
use cosmic_swingset.Base.Dict.{contains, insert}
use cosmic_swingset.Base.{
  ℕ, String, nat_eq, string_eq, list_eq, ◌≡◌, refl, true, some, List, [], ◌∷◌,
}

abbrev no_targets : State ℕ
no_targets = record { known_targets = []; calls = [] }

abbrev two_listeners : List Connection
two_listeners = http (codes "localhost") 8000 ∷ chain "gci" ∷ http (codes "localhost") 8001 ∷ []

-- two chains answer in the other order
abbrev last_first : List String → List String
last_first (g ∷ h ∷ []) = h ∷ g ∷ []
last_first gcis = gcis

started_both :
    is_ok (start_connections (λ g. true) last_first (chain "gci" ∷ chain "other" ∷ []) no_targets)
    ≡ true
unfolding start_connections start_all start_one connect_all connected add_delivery_target contains
    insert
started_both = refl

parse_name_path-pair_of_example :
    parse_name_path
      (pair_of (codes "/solo/contracts") (codes "zoe-swap.js") (codes "zoe", codes "swap"))
    ≡ some (record {
      name = codes "zoe-swap";
      target = codes "zoe";
      path = codes "/solo/contracts/zoe-swap.js";
    })
parse_name_path-pair_of_example =
    parse_name_path-pair_of (codes "zoe") (codes "swap") (codes "/solo/contracts")
      (codes "zoe-swap.js") zoe (λ e. cc) (refl, (refl, (refl, (refl, tt)))) refl

matched : match_contract (codes "contractHost-a.b.js") ≡ some (codes "contractHost", codes "a")
unfolding match_contract
matched = refl
