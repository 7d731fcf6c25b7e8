-- ===== src/Setup/Placement.antt =====
-- The allocation of nodes by `doInit` of setup/init.js: the answers to its questions, in order, and the
-- numbers of the nodes. The details that a provider asks for are left out.
pub mod Numbered
mod Tests
use cosmic_swingset.Base.{
  nat_beq, if◌then◌else◌, length, Result, ok, err, nat_eq, string_eq, list_eq, ℕ, zero, suc, ◌+◌,
  Bool, Option, none, some, List, [], ◌∷◌, ◌++◌,
}
use cosmic_swingset.Base.Dict.{Dict, lookup, insert, erase}
use cosmic_swingset.Base.Text.{Text, to_decimal, sort_texts}

-- An answer of `askDatacenter`; `MORE` holds of every one but the last.
pub record Allocation : Type 0 where
  pub datacenter : Text
  pub num_nodes : ℕ

-- The answers of one round, up to the end of the allocation menu.
pub data Round : Type 0 where
  existing : Text → List Allocation → Round
  -- a provider, and whether its details were given
  new_placement : Text → Bool → List Allocation → Round
  -- no provider was chosen
  back_to_menu : Round

pub record Choices : Type 0 where
  pub placements : Dict Text (Dict Text ℕ)
  pub placement_provider : Dict Text Text
  pub last_placement : Dict Text ℕ

abbrev pub no_choices : Choices
no_choices = record { placements = []; placement_provider = []; last_placement = [] }

abbrev pub or_zero : Option ℕ → ℕ
or_zero none = 0
or_zero (some n) = n

abbrev pub or_empty : Option (Dict Text ℕ) → Dict Text ℕ
or_empty none = []
or_empty (some d) = d

-- the loop over the datacenters of a placement
pub allocate : List Allocation → Dict Text ℕ → Dict Text ℕ
allocate [] placement = placement
allocate (a ∷ as') placement = elim a.num_nodes [
  | zero ↦ allocate as' (erase a.datacenter placement)
  | suc n ↦ allocate as' (insert a.datacenter (suc n) placement)
]

-- the end of a round: `PLACEMENTS[PLACEMENT] = placement`
pub commit : Text → List Allocation → Choices → Choices
unfolding allocate
commit name as' c = record c {
  placements = insert name (allocate as' (or_empty (lookup name c.placements))) c.placements;
}

-- `setPlacement()`, with the name
pub set_placement : Text → Choices → Text × Choices
set_placement provider c =
    let n = or_zero (lookup provider c.last_placement) + 1 in
    let name = provider ++ to_decimal n in
    (
      name,
      record c {
        last_placement = insert provider n c.last_placement;
        placement_provider = insert name provider c.placement_provider;
      },
    )

pub play_round : Round → Choices → Choices
unfolding commit set_placement
play_round (existing name as') c = commit name as' c
play_round (new_placement provider given as') c =
    if given then (let (name, d) = set_placement provider c in commit name as' d) else c
play_round back_to_menu c = c

pub play : List Round → Choices → Choices
unfolding play_round
play [] c = c
play (r ∷ rs) c = play rs (play_round r c)

abbrev pub repeat : ℕ → Text → List Text
repeat zero dc = []
repeat (suc n) dc = dc ∷ repeat n dc

abbrev pub keys : Dict Text ℕ → List Text
keys [] = []
keys ((k, _) ∷ d) = k ∷ keys d

abbrev pub nodes_in : Dict Text ℕ → List Text → List Text
nodes_in placement [] = []
nodes_in placement (dc ∷ dcs) = repeat (or_zero (lookup dc placement)) dc ++ nodes_in placement dcs

-- the datacenters of a placement, one for each node
pub nodes_of : Dict Text ℕ → List Text
nodes_of placement = nodes_in placement (sort_texts (keys placement))

-- `DATACENTERS[PLACEMENT]`, and `OFFSETS[PLACEMENT]` if it has one
pub record Row : Type 0 where
  pub placement : Text
  pub offset : Option ℕ
  pub datacenters : List Text

-- the loop that collates, from a value of `instance` on
pub collate : ℕ → Dict Text (Dict Text ℕ) → List Row
unfolding nodes_of
collate instance' [] = []
collate instance' ((name, placement) ∷ rest) =
    let nodes = nodes_of placement in
    record {
      placement = name;
      offset = elim nodes [ [] ↦ none | _ ∷ _ ↦ some instance' ];
      datacenters = nodes;
    }
    ∷ collate (instance' + length nodes) rest

pub data Thrown : Type 0 where
  no_nodes : Thrown

abbrev pub all_nodes : List Row → List Text
all_nodes [] = []
all_nodes (r ∷ rs) = r.datacenters ++ all_nodes rs

-- what `doInit` writes of the placements, from the answers
pub do_init : List Round → Result Thrown (List Row)
unfolding play collate
do_init rounds =
    let rows = collate 0 (play rounds no_choices).placements in
    if nat_beq (length (all_nodes rows)) 0 then err no_nodes else ok rows
