-- ===== src/Solo/Start/Checked.antt =====
-- The checks of the connections in `start` of lib/ag-solo/start.js.
use cosmic_swingset.Base.Text.{Text}
use cosmic_swingset.Solo.Start.{Connection, chain, http, unknown, StartError, Started}
use cosmic_swingset.Outbound.{State}
use cosmic_swingset.Base.Dict.{Dict, contains}
use cosmic_swingset.Base.Distinct.{distinct}
use cosmic_swingset.Base.{
  nat_eq, string_eq, list_eq, leb, if◌then◌else◌, any, Result, ok, err, ℕ, suc, ◌+◌, String, Bool,
  true, false, not, ◌&&◌, Option, none, some, List, [], ◌∷◌,
}

-- how many listeners there are to be, and whether a type is unknown
abbrev pub count_http : List Connection → ℕ
count_http [] = 0
count_http (http host port ∷ cs) = suc (count_http cs)
count_http (_ ∷ cs) = count_http cs

abbrev pub is_unknown : Connection → Bool
is_unknown unknown = true
is_unknown _ = false

abbrev pub is_none {ℓ} : {A : Type ℓ} → Option A → Bool
is_none none = true
is_none (some _) = false

-- the chains to be connected, in the order of the connections
abbrev pub chains : List Connection → List String
chains [] = []
chains (chain gci ∷ cs) = gci ∷ chains cs
chains (_ ∷ cs) = chains cs

-- what `start_all` comes to, from a state
abbrev passes : ℕ → Bool → Started → Bool
passes listeners bad s =
    is_none s.failed && not bad && leb (listeners + (if is_none s.listener then 0 else 1)) 1

abbrev pub is_ok {ℓ} : {A : Type ℓ} → Result StartError A → Bool
is_ok (ok _) = true
is_ok (err _) = false

module _ {B : Type 0} (connects : String → Bool) where
  -- every chain gives a deliverator, none is there twice, and none has a target yet
  abbrev pub can_connect : List String → State B → Bool
  can_connect gcis s =
      not (any (λ g. not (connects g)) gcis)
      && distinct gcis
      && not (any (λ g. contains g s.known_targets) gcis)
