-- ===== src/Boot/CommandLine.antt =====
-- `parseArgs` of lib/ag-solo/vats/bootstrap.js.
use cosmic_swingset.Base.{
  nat_beq, if◌then◌else◌, any, ◌==◌, nat_eq, string_eq, list_eq, String, Bool, true, false, not,
  ◌&&◌, Option, none, some, List, [], ◌∷◌, ◌++◌,
}
use cosmic_swingset.Base.Text.{is_line_end, Text, codes}

-- `ROLES` as the list of its keys, in the order in which they were set.
pub record Args : Type 0 where
  pub roles : List Text
  pub boot_address : Option Text
  pub additional_addresses : List Text

-- a value that is not undefined and not empty
abbrev pub truthy : Option Text → Option Text
truthy none = none
truthy (some []) = none
truthy (some (c ∷ cs)) = some (c ∷ cs)

-- The rest of a text behind a prefix.
abbrev pub strip_prefix : Text → Text → Option Text
strip_prefix [] t = some t
strip_prefix (a ∷ p) [] = none
strip_prefix (a ∷ p) (b ∷ t) = if nat_beq a b then strip_prefix p t else none

-- `arg.match(/^--role=(.*)$/)`, with the group
abbrev pub role_of : Text → Option Text
role_of arg = elim (strip_prefix (codes "--role=") arg) [
  | none ↦ none
  | some role ↦ if any is_line_end role then none else some role
]

-- `arg.match(/^-/)`
abbrev pub is_option : Text → Bool
is_option [] = false
is_option (c ∷ cs) = nat_beq c b'-'

-- `ROLES[role] = true`
abbrev pub add_role : Text → List Text → List Text
add_role role roles = if any (λ r. r == role) roles then roles else roles ++ role ∷ []

abbrev pub is_some : Option Text → Bool
is_some none = false
is_some (some _) = true

-- one round of the loop over the arguments
unfoldable pub parse_arg : Args → Text → Args
parse_arg args arg = elim (role_of arg) [
  | some role ↦ record args { roles = add_role role args.roles }
  | none ↦
      if not (is_some (truthy args.boot_address)) && not (is_option arg)
      then record args { boot_address = some arg }
      else if not (is_option arg)
      then record args { additional_addresses = args.additional_addresses ++ arg ∷ [] }
      else args
]

unfoldable pub parse_from : Args → List Text → Args
unfolding parse_arg
parse_from args [] = args
parse_from args (arg ∷ argv) = parse_from (parse_arg args arg) argv

-- `three_client` where no role is given
unfoldable pub parse_args : List Text → Args
unfolding parse_from
parse_args argv =
    let args =
      parse_from (record { roles = []; boot_address = none; additional_addresses = [] }) argv in
    elim args.roles [ [] ↦ record args { roles = codes "three_client" ∷ [] } | _ ∷ _ ↦ args ]

abbrev pub has_role : String → Args → Bool
has_role role args = any (λ r. r == codes role) args.roles
