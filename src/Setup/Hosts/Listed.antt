-- ===== src/Setup/Hosts/Listed.antt =====
-- The chain's group in the inventory of `show-hosts` of setup/main.js.
use cosmic_swingset.Base.Dict.{lookup}
use cosmic_swingset.Base.Text.{Text, codes}
use cosmic_swingset.Setup.Hosts.{indent, node_name, host_block, ips_of}
use cosmic_swingset.Setup.Machines.{Provision}
use cosmic_swingset.Base.{nat_eq, string_eq, list_eq, ℕ, ◌+◌, Option, List, [], ◌∷◌, ◌++◌}

abbrev chain : Text
chain = codes "ag-chain-cosmos"

-- the blocks of the instances of a provider, indented
abbrev pub instance_blocks : Text → Option ℕ → ℕ → List Text → Text
instance_blocks key offset instance [] = []
instance_blocks key offset instance (ip ∷ ips) =
    indent (host_block key (node_name offset instance) ip)
    ++ instance_blocks key offset (instance + 1) ips

-- and of the providers
abbrev pub provider_blocks : Text → Provision → List Text → Text
provider_blocks key prov [] = []
provider_blocks key prov (provider ∷ providers) =
    instance_blocks key (lookup provider prov.offsets) 0 (ips_of prov provider)
    ++ provider_blocks key prov providers
