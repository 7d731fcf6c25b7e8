-- ===== src/Setup/SetJson.antt =====
-- setup/set-json.js, which sets values inside a JSON file. `JSON.parse` and `JSON.stringify` are
-- parameters; names that every object inherits, such as `toString`, are taken for missing.
pub mod Assigned
mod Tests
use cosmic_swingset.Base.Match.{split_at}
use cosmic_swingset.Base.Text.{Text, codes, is_line_end}
use cosmic_swingset.Base.{
  nat_beq, if◌then◌else◌, any, Result, ok, err, ◌==◌, nat_eq, string_eq, list_eq, Option, none,
  some, List, [], ◌∷◌,
}

-- A parsed value. A primitive and an array are their texts, since no path of a name goes into them.
mutual
  pub data Json : Type 0 where
    null : Json
    primitive : Text → Json
    array : Text → Json
    object : Fields → Json

  pub data Fields : Type 0 where
    end : Fields
    field : Text → Json → Fields → Fields

pub data Thrown : Type 0 where
  -- `not a path=value argument`
  not_an_assignment : Text → Thrown
  -- `JSON.parse` of the value
  syntax_error : Text → Thrown
  -- `in` of a primitive, or a property of null
  type_error : Thrown
  -- a path into an array, which is not modelled
  into_array : Thrown
  read_error : Thrown

-- `obj[key]`
unfoldable pub find : Text → Fields → Option Json
find key end = none
find key (field k j fs) = if k == key then some j else find key fs

-- `obj[key] = value`: an old key keeps its place, a new one goes to the end
unfoldable pub put : Text → Json → Fields → Fields
put key value end = field key value end
put key value (field k j fs) =
    let rest = put key value fs in if k == key then field k value fs else field k j rest

-- the last assignment, `obj[ps[ps.length - 1]] = val`, which a primitive ignores
abbrev pub set_key : Text → Json → Json → Result Thrown Json
set_key key value null = err type_error
set_key key value (primitive t) = ok (primitive t)
set_key key value (array t) = err into_array
set_key key value (object fs) = ok (object (put key value fs))

-- `obj[p]`, made first where it is missing
abbrev pub child : Text → Fields → Json
child key fs = elim (find key fs) [ none ↦ object end | some j ↦ j ]

-- the child is changed in its object
abbrev pub in_child : Text → Fields → Result Thrown Json → Result Thrown Json
in_child key fs (err e) = err e
in_child key fs (ok j) = ok (object (put key j fs))

-- the loop over the path, and the assignment behind it
unfoldable pub set_path : Text → List Text → Json → Json → Result Thrown Json
set_path key [] value obj = set_key key value obj
set_path key (p ∷ ps) value null = err type_error
set_path key (p ∷ ps) value (primitive t) = err type_error
set_path key (p ∷ ps) value (array t) = err into_array
set_path key (p ∷ ps) value (object fs) = in_child key fs (set_path p ps value (child key fs))

-- `[^=]+=`, and what follows it
abbrev pub split_equals : Text → Option (Text × Text)
split_equals [] = none
split_equals (c ∷ cs) =
    let rest = split_equals cs in
    if nat_beq c b'='
    then some ([], cs)
    else elim rest [ none ↦ none | some (path, value) ↦ some (c ∷ path, value) ]

-- `pathEquals.match(/^([^=]+)=(.*)$/)`
abbrev pub match_assign : Text → Option (Text × Text)
match_assign t = elim (split_equals t) [
  | none ↦ none
  | some ([], value) ↦ none
  | some (c ∷ path, value) ↦ if any is_line_end value then none else some (c ∷ path, value)
]

-- the arguments, with the overrides written out
pub expand : List Text → List Text
expand [] = []
expand (assign ∷ rest) =
    let more = expand rest in
    if assign == codes "--agoric-genesis-overrides"
    then codes "app_state.auth.params.tx_size_cost_per_byte=\"0\"" ∷ more
    else assign ∷ more

module _ (parse : Text → Option Json) where
  -- one round of the loop over the assignments
  pub assign : Text → Json → Result Thrown Json
  assign path_equals config = elim (match_assign path_equals) [
    | none ↦ err (not_an_assignment path_equals)
    | some (path, json) ↦ elim (parse json) [
      | none ↦ err (syntax_error json)
      | some value ↦ let (p, ps) = split_at b'.' path in set_path p ps value config
    ]
  ]

  -- the loop
  pub assign_all : List Text → Json → Result Thrown Json
  unfolding assign
  assign_all [] config = ok config
  assign_all (a ∷ rest) config = elim (assign a config) [
    | err e ↦ err e
    | ok next ↦ assign_all rest next
  ]

  -- what the file holds, if it can be read
  abbrev pub parse_config : Option Text → Result Thrown Json
  parse_config none = ok (object end)
  parse_config (some t) = elim (parse t) [ none ↦ err read_error | some j ↦ ok j ]

  -- the new value, from the contents of the file, if it is there, and the arguments
  pub set_json : Option Text → List Text → Result Thrown Json
  unfolding assign_all expand
  set_json config args = elim (parse_config config) [
    | err e ↦ err e
    | ok j ↦ assign_all (expand args) j
  ]
