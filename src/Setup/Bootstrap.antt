-- ===== src/Setup/Bootstrap.antt =====
-- `bootstrap-cosmos` of setup/main.js, from the files of a provisioned network to a running chain.
pub mod Controller
mod Named
pub mod Stages
mod Phases
mod Settled
mod Tests
use mathlib.Core.Option
use Prim.Native.Char.{code}
use cosmic_swingset.Setup.World.{
  Outside, M, ◌>>=◌, ◌>>◌, pure, unless, exists, trim_right, trim_read_file, need_do_run,
  need_backtick, own_command, guard_file, make, stamp,
}
use cosmic_swingset.Setup.Commands.{height, play, need_play, wait_for_any}
use cosmic_swingset.Base.Text.{Text, codes}
use cosmic_swingset.Files.Guard.{Maker}
use cosmic_swingset.Base.{
  if◌then◌else◌, ok, ◌==◌, nat_eq, string_eq, list_eq, String, Bool, false, Option, none, some,
  List, [], ◌∷◌, ◌++◌,
}
use cosmic_swingset.Base.Dict.{lookup}

-- what is removed where the chain's name has changed
abbrev pub rm_state : List Text
rm_state = codes "rm" ∷ codes "-rf" ∷ codes "ag-pserver" ∷ codes "ag-chain-cosmos" ∷ []

-- `currentChainName`, and `pserverPassword` with its default
abbrev pub read_or : Text → String → M Text
read_or default path = exists path >>= λ found. if found then trim_read_file path else pure default

-- `trimReadFile(path).catch(e => undefined)`
abbrev pub try_read : String → M (Option Text)
try_read path s = (ok (Option.map trim_right (lookup path s.files)), s)

-- `${networkName}-${chainVersion}`
abbrev pub chain_name_of : Text → Text → Text
chain_name_of network version = network ++ (b'-' ∷ version)

abbrev pub is_named : Option Text → Text → Bool
is_named none name = false
is_named (some t) name = t == name

-- the installation of the chain's service, which is told the address
abbrev pub service_words : Text → List Text
service_words address =
    codes "install"
    ∷ (codes "-eserviceLines=\"Environment=BOOT_ADDRESS=" ++ (address ++ codes "\""))
    ∷ []

module _ (o : Outside) where
  -- `playbook` by `reMain(['play', ...args])`, whose exit code is not looked at
  abbrev pub try_play : List Text → M (Unit {0})
  try_play args = play o args >>= λ code. pure tt

  -- the parameters do not match: the services are stopped, and their state is removed
  pub stop_chain : M (Unit {0})
  stop_chain =
      try_play (codes "stop" ∷ codes "-eservice=ag-pserver" ∷ [])
      >> try_play (codes "stop" ∷ codes "-eservice=ag-controller" ∷ codes "-euser=ag-pserver" ∷ [])
      >> try_play (codes "stop" ∷ codes "-eservice=ag-chain-cosmos" ∷ [])
      >> need_do_run o rm_state

  -- the file of the chain's name, which is made again for a chain under a new name
  pub rename_chain : Text → M (Unit {0})
  unfolding stop_chain
  rename_chain name = try_read "ag-chain-cosmos/chain-name.txt" >>= λ current.
      unless (is_named current name) stop_chain
      >> guard_file o "ag-chain-cosmos/chain-name.txt" (make o name)

  -- with the password of the provisioning server, which may be missing
  pub name_with : Text → Text → M (Text × Text)
  unfolding rename_chain
  name_with network version = read_or [] "pserver-password.txt" >>= λ password.
      rename_chain (chain_name_of network version) >> pure (network, password)

  pub read_name : M (Text × Text)
  unfolding name_with
  read_name = trim_read_file "network.txt" >>= λ network.
      trim_read_file "chain-version.txt" >>= λ version. name_with network version

  -- the version file, and the chain's name; it gives the name of the network and the password
  pub name_chain : M (Text × Text)
  unfolding read_name
  name_chain = guard_file o "chain-version.txt" (make o (codes "0.0.0")) >> read_name

  -- `cosmos-genesis`, and the overrides of set-json.js
  pub make_genesis : M (Unit {0})
  make_genesis =
      need_play o (codes "cosmos-genesis" ∷ [])
      >> need_do_run o (
          (o.code_dir ++ codes "/set-json.js")
          ∷ codes "ag-chain-cosmos/data/genesis.json"
          ∷ codes "--agoric-genesis-overrides"
          ∷ [])

  -- a file that holds the output of a subcommand
  abbrev pub make_output : String → (Text → Text) → M Maker
  make_output cmd f = need_backtick o (own_command o cmd) >>= λ t. make o (f t)

  -- the chain nodes: from their configuration to their start
  pub start_chain : M (Unit {0})
  unfolding make_genesis
  start_chain =
      guard_file o "ag-pserver/prepare.stamp"
        (stamp o (need_play o (codes "prepare-controller" ∷ [])))
      >> guard_file o "ag-chain-cosmos/prepare.stamp"
          (stamp o (need_play o (codes "prepare-cosmos" ∷ [])))
      >> guard_file o "ag-chain-cosmos/genesis.stamp" (stamp o make_genesis)
      >> guard_file o "ag-chain-cosmos/data/peers.txt" (make_output "show-peers" (λ t. t))
      >> guard_file o "ag-chain-cosmos/install.stamp"
          (stamp o (need_play o (codes "install-cosmos" ∷ [])))
      >> need_backtick o (own_command o "show-bootstrap-address")
      >>= λ address.
          guard_file o "ag-chain-cosmos/service.stamp"
            (stamp o (need_play o (service_words address)))
          >> guard_file o "ag-chain-cosmos/start.stamp" (stamp o (need_play o (codes "start" ∷ [])))
          >> (wait_for_any o [] >>= λ height. pure tt)
          >> guard_file o "ag-chain-cosmos/validators.stamp"
              (stamp o (need_play o (codes "cosmos-validators" ∷ [])))
