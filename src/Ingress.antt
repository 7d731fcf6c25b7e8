-- ===== src/Ingress.antt =====
-- lib/ag-solo/set-gci-ingress.js: the list of connections in connections.json. A connection has the
-- fields that are read, and the rest of it is opaque. An object keeps its keys in the order in
-- which they were set, which holds of every key that is no array index.
pub mod Kinds
mod Tests
use cosmic_swingset.Base.{
  leb, nat_beq, if◌then◌else◌, any, ◌==◌, nat_eq, string_eq, list_eq, ℕ, Bool, false, ◌&&◌, ◌||◌,
  none, some, List, [], ◌∷◌, ◌++◌,
}
use cosmic_swingset.Base.Dict.{Dict, lookup, insert}
use cosmic_swingset.Base.Text.{is_line_end, Text, codes}

pub record Connection (P : Type 0) : Type 0 where
  -- `type`
  pub kind : Text
  pub gci : Text
  pub chain_id : Text
  pub rpc_addresses : List Text
  pub rest : P

-- `[\d.]`
abbrev pub is_version : ℕ → Bool
is_version c = nat_beq c b'.' || (leb b'0' c && leb c b'9')

-- the text up to the last character that is neither a digit nor a dot
abbrev pub strip_version : Text → Text
strip_version [] = []
strip_version (c ∷ cs) = elim (strip_version cs) [
  | [] ↦ if is_version c then [] else c ∷ []
  | d ∷ ds ↦ c ∷ d ∷ ds
]

-- a line end before the last character
abbrev pub has_inner_line_end : Text → Bool
has_inner_line_end [] = false
has_inner_line_end (c ∷ []) = false
has_inner_line_end (c ∷ d ∷ ds) = is_line_end c || has_inner_line_end (d ∷ ds)

-- `getBase(id)`: the group of `/^(.*[^\d.])[\d.]*$/`, or all of the text where that does not match
pub get_base : Text → Text
get_base id = elim (strip_version id) [
  | [] ↦ id
  | c ∷ cs ↦ if has_inner_line_end (c ∷ cs) then id else c ∷ cs
]

abbrev pub sdk_kind : Text
sdk_kind = codes "chain-cosmos-sdk"

-- `conns` with the first element that passes the test replaced, or with a new one at the end
abbrev pub replace_or_push {ℓ} : {A : Type ℓ} → (A → Bool) → A → List A → List A
replace_or_push p c [] = c ∷ []
replace_or_push p c (x ∷ xs) = if p x then c ∷ xs else x ∷ replace_or_push p c xs

module _ {P : Type 0} where
  -- the test of `findIndex`
  pub is_duplicate : Connection P → Connection P → Bool
  unfolding get_base
  is_duplicate new old =
      old.gci == new.gci
      || get_base old.chain_id == get_base new.chain_id
      || any (λ r. any (λ s. s == r) old.rpc_addresses) new.rpc_addresses

  -- the `switch` of `add`, on a type that has connections
  pub join : Connection P → List (Connection P) → List (Connection P)
  unfolding is_duplicate
  join c conns =
      if c.kind == sdk_kind then replace_or_push (is_duplicate c) c conns else conns ++ c ∷ []

  -- `add(c)`
  pub add : Connection P → Dict Text (List (Connection P)) → Dict Text (List (Connection P))
  unfolding join
  add c conns_by_type = elim (lookup c.kind conns_by_type) [
    | none ↦ insert c.kind (c ∷ []) conns_by_type
    | some conns ↦ insert c.kind (join c conns) conns_by_type
  ]

  pub add_all :
      List (Connection P) → Dict Text (List (Connection P)) → Dict Text (List (Connection P))
  unfolding add
  add_all [] conns_by_type = conns_by_type
  add_all (c ∷ cs) conns_by_type = add_all cs (add c conns_by_type)

  -- `Object.entries(connsByType).forEach(…)`
  abbrev pub concat_values : Dict Text (List (Connection P)) → List (Connection P)
  concat_values [] = []
  concat_values ((_, conns) ∷ rest) = conns ++ concat_values rest

  -- the connections that are written, from those that were read and the new one
  pub set_gci_ingress : List (Connection P) → Connection P → List (Connection P)
  unfolding add_all
  set_gci_ingress old new_conn = concat_values (add new_conn (add_all old []))
