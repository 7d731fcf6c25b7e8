-- ===== src/Solo/Start.antt =====
-- `start` of lib/ag-solo/start.js: the connections that are made first, and the contracts that a client
-- uploads. `connectToChain` ends in any order, with a deliverator or a failure, which is the
-- same for two connections of one chain.
mod Checked
pub mod Uploaded
mod Tests
use cosmic_swingset.Base.Match.{strip, first_of, within_line}
use cosmic_swingset.Base.Text.{Text, codes, sort_texts}
use cosmic_swingset.Upload.{span}
use cosmic_swingset.Outbound.{State, add_delivery_target}
use cosmic_swingset.Base.{
  nat_beq, if◌then◌else◌, any, Result, ok, err, ℕ, String, Bool, true, false, not, Option, none,
  some, List, [], ◌∷◌, ◌++◌,
}

pub data Connection : Type 0 where
  -- `type` is `chain-cosmos-sdk`, with its GCI
  chain : String → Connection
  -- `type` is `http`, with the host and the port
  http : Text → ℕ → Connection
  unknown : Connection

pub data StartError : Type 0 where
  -- `duplicate type=http in connections.json`
  duplicate_http : StartError
  -- `unknown connection type`
  unknown_type : StartError
  connect_failed : String → StartError
  -- what `addDeliveryTarget` throws
  target_error : StartError

-- Behind the first turn of the calls of `map`: the listener, the chains that are awaited, and the
-- first error.
pub record Started : Type 0 where
  pub listener : Option (Text × ℕ)
  pub awaited : List String
  pub failed : Option StartError

abbrev pub nothing_started : Started
nothing_started = record { listener = none; awaited = []; failed = none }

abbrev pub fail : StartError → Started → Started
fail e s = record s { failed = first_of s.failed (some e) }

-- the first turn for a connection; an error rejects one promise, and the others go on
pub start_one : Connection → Started → Started
start_one (chain gci) s = record s { awaited = s.awaited ++ gci ∷ [] }
start_one (http host port) s = elim s.listener [
  | none ↦ record s { listener = some (host, port) }
  | some l ↦ fail duplicate_http s
]
start_one unknown s = fail unknown_type s

-- `connections.map`
unfoldable pub start_all : List Connection → Started → Started
unfolding start_one
start_all [] s = s
start_all (c ∷ cs) s = start_all cs (start_one c s)

module _ {B : Type 0} where
  -- what `Promise.all` comes to, by the first turns and the later ones
  abbrev pub settled :
      {A : Type 0}
      → Option StartError
      → A
      → Result StartError (State B)
      → Result StartError (A × State B)
  settled (some e) listener r = err e
  settled none listener (err e) = err e
  settled none listener (ok t) = ok (listener, t)

module _ {B : Type 0} (connects : String → Bool) where
  -- the later turn for a chain; `connects` is whether `connectToChain` gives a deliverator
  pub connected : String → State B → Result StartError (State B)
  connected gci s =
      if connects gci
      then elim (add_delivery_target gci s) [ err e ↦ err target_error | ok t ↦ ok t ]
      else err (connect_failed gci)

  -- these turns, in the order in which the chains answer
  pub connect_all : List String → State B → Result StartError (State B)
  unfolding connected
  connect_all [] s = ok s
  connect_all (gci ∷ gcis) s = elim (connected gci s) [ err e ↦ err e | ok t ↦ connect_all gcis t ]

  -- `Promise.all`: the first error rejects it; what is returned is what the rest of `start` works on.
  -- `order` is the order in which the awaited chains answer.
  pub start_connections :
      (List String → List String)
      → List Connection
      → State B
      → Result StartError (Option (Text × ℕ) × State B)
  unfolding connect_all
  start_connections order connections s =
      let started = start_all connections nothing_started in
      settled started.failed started.listener (connect_all (order started.awaited) s)

-- `[^.]+` behind a target and a dash, as (target, rest)
abbrev pub own_name : Text → Option Text → Option (Text × Text)
own_name target none = none
own_name target (some rest) = elim (span (λ c. not (nat_beq c b'.')) rest).0 [
  | [] ↦ none
  | c ∷ cs ↦ some (target, c ∷ cs)
]

-- `name.match(CONTRACT_REGEXP)`: the two parts of its `match[1]`, with the dash between them
pub match_contract : Text → Option (Text × Text)
match_contract name =
    first_of (own_name (codes "zoe") (strip (codes "zoe-") name))
      (own_name (codes "contractHost") (strip (codes "contractHost-") name))

-- `${match[1]}=${contractsDir}/${name}`
abbrev pub pair_of : Text → Text → Text × Text → Text
pair_of dir name (target, own) = target ++ (b'-' ∷ (own ++ (b'=' ∷ (dir ++ (b'/' ∷ name)))))

-- the `reduce`
pub pairs_from : Text → List Text → List Text
unfolding match_contract
pairs_from dir [] = []
pairs_from dir (name ∷ names) =
    let rest = pairs_from dir names in
    elim (match_contract name) [ none ↦ rest | some m ↦ pair_of dir name m ∷ rest ]

-- `pairs`, from the names in the directory
pub contract_pairs : Text → List Text → List Text
unfolding pairs_from
contract_pairs dir names = pairs_from dir (sort_texts names)

-- `value.match(/^--role=.*client/)`
abbrev pub is_client_role : Text → Bool
is_client_role value = elim (strip (codes "--role=") value) [
  | none ↦ false
  | some rest ↦ elim (within_line (strip (codes "client")) rest) [ none ↦ false | some _ ↦ true ]
]

-- the arguments of `uploadContract`, if it is called
pub upload_args : List Text → Text → List Text → Option (List Text)
unfolding contract_pairs
upload_args argv dir names =
    if any is_client_role argv
    then elim (contract_pairs dir names) [ [] ↦ none | p ∷ ps ↦ some (codes "--once" ∷ p ∷ ps) ]
    else none
