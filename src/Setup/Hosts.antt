-- ===== src/Setup/Hosts.antt =====
-- `show-hosts` of setup/main.js: the inventory of the machines for Ansible.
mod Listed
mod Tests
use cosmic_swingset.Base.Dict.{Dict, lookup, insert}
use cosmic_swingset.Base.Match.{split}
use cosmic_swingset.Base.Text.{Text, codes, to_decimal, sort_texts}
use cosmic_swingset.Setup.Machines.{Provision}
use cosmic_swingset.Base.{
  if◌then◌else◌, ◌==◌, nat_eq, string_eq, list_eq, ℕ, ◌+◌, Bool, Option, none, some, List, [], ◌∷◌,
  ◌++◌, map,
}

-- `prefixLines` behind the split: the last line is left out if it is empty
abbrev pub add_prefixes : Text → List Text → Text
add_prefixes prefix [] = []
add_prefixes prefix ([] ∷ []) = []
add_prefixes prefix ((c ∷ cs) ∷ []) = prefix ++ ((c ∷ cs) ++ 10 ∷ [])
add_prefixes prefix (line ∷ l ∷ lines) = prefix ++ (line ++ (10 ∷ add_prefixes prefix (l ∷ lines)))

-- `prefixLines(str, prefix)`
unfoldable pub prefix_lines : Text → Text → Text
prefix_lines str prefix = add_prefixes prefix (split 10 str)

-- `indent(str, 4)`
abbrev pub indent : Text → Text
indent str = prefix_lines str (codes "    ")

abbrev pub Groups : Type 0
Groups = Dict Text Text

-- `beginBlock`
abbrev pub begin_block : Text → Text
begin_block name = name ++ codes ":\n  hosts:\n"

-- `makeGroup(name)`
abbrev pub make_group : Text → Groups → Groups
make_group name groups = insert name (begin_block name) groups

-- the function that `makeGroup` returns, for a group that is there
pub add_to_group : Text → Text → Groups → Groups
add_to_group name block groups = elim (lookup name groups) [
  | none ↦ groups
  | some old ↦ insert name (old ++ indent block) groups
]

-- `node${offset + instance}`, where a provider may have no offset
abbrev pub node_name : Option ℕ → ℕ → Text
node_name none instance = codes "nodeNaN"
node_name (some offset) instance = codes "node" ++ to_decimal (offset + instance)

-- `node === PROVISIONER_NODE`
abbrev pub is_provisioner : Text → Bool
is_provisioner node = node == codes "node0"

abbrev pub units : Text
units =
    codes
      "  units:\n  - ag-pserver.service\n  - ag-controller.service\n  - ag-chain-cosmos.service\n"

-- `host`, with the path of the private key
pub host_block : Text → Text → Text → Text
host_block key node ip =
    node
    ++ (codes ":\n  ansible_host: "
        ++ (ip
            ++ (codes "\n  ansible_ssh_user: root\n  ansible_ssh_private_key_file: '"
                ++ (key
                    ++ (codes "'\n  ansible_python_interpreter: /usr/bin/python\n"
                        ++ (if is_provisioner node then units else []))))))

-- the body of the loop over the instances
pub add_host : Text → Text → Text → Text → Groups → Groups
add_host key provider node ip groups =
    let host = host_block key node ip in
    let listed = add_to_group (codes "ag-chain-cosmos") host (add_to_group provider host groups) in
    if is_provisioner node
    then add_to_group (codes "ag-pserver") host (make_group (codes "ag-pserver") listed)
    else listed

-- the loop over the instances, from one on
pub add_instances : Text → Text → Option ℕ → ℕ → List Text → Groups → Groups
unfolding add_host
add_instances key provider offset instance [] groups = groups
add_instances key provider offset instance (ip ∷ ips) groups =
    add_instances key provider offset (instance + 1) ips
      (add_host key provider (node_name offset instance) ip groups)

-- `prov.public_ips.value[provider]`, for a provider that is there
abbrev pub ips_of : Provision → Text → List Text
ips_of prov provider = elim (lookup provider prov.public_ips) [ none ↦ [] | some ips ↦ ips ]

-- the loop over the providers
pub add_providers : Text → Provision → List Text → Groups → Groups
unfolding add_instances
add_providers key prov [] groups = groups
add_providers key prov (provider ∷ providers) groups = add_providers key prov providers (
    add_instances key provider (lookup provider prov.offsets) 0 (ips_of prov provider)
      (make_group provider groups))

-- `byGroup`
pub by_group : Text → Provision → Groups
unfolding add_providers
by_group key prov =
    add_providers key prov (sort_texts (map (λ c. c.0) prov.public_ips))
      (make_group (codes "ag-chain-cosmos") (make_group (codes "all") []))

-- `byGroup[group]`, for a group that is there
abbrev pub block_of : Text → Groups → Text
block_of group groups = elim (lookup group groups) [ none ↦ [] | some block ↦ block ]

-- the loop over the groups
pub write_groups : Groups → List Text → Text
write_groups groups [] = []
write_groups groups (group ∷ rest) =
    let more = write_groups groups rest in
    if group == codes "all" then more else indent (block_of group groups) ++ more

-- `case 'show-hosts'`
pub show_hosts : Text → Provision → Text
unfolding by_group write_groups
show_hosts key prov =
    let groups = by_group key prov in
    block_of (codes "all") groups
    ++ (codes "  children:\n" ++ write_groups groups (sort_texts (map (λ g. g.0) groups)))
