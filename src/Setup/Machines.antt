-- ===== src/Setup/Machines.antt =====
-- The machines of a network in setup/main.js: `show-rpcaddrs` and `show-peers`, from the output of
-- Terraform, which has the public addresses and the number of the first node of each cluster.
mod Joined
mod Placed
mod Tests
use cosmic_swingset.Base.Dict.{Dict, lookup, insert}
use cosmic_swingset.Setup.World.{
  Outside, M, ◌>>=◌, ◌>>◌, trim_right, trim_read_file, need_backtick, guard_file, make,
}
use cosmic_swingset.Setup.Version.{is_digit}
use cosmic_swingset.Base.Text.{Text, codes}
use cosmic_swingset.Base.{
  leb, if◌then◌else◌, Result, ok, err, nat_eq, string_eq, list_eq, ℕ, ◌+◌, Bool, false, ◌&&◌, ◌||◌,
  none, some, List, [], ◌∷◌, ◌++◌,
}

-- `provisionOutput()`, of which `JSON.parse` is another library's
pub record Provision : Type 0 where
  pub public_ips : Dict Text (List Text)
  pub offsets : Dict Text ℕ

pub provision_output : Outside → M Text
provision_output o =
    guard_file o "provision/terraform.json"
      (need_backtick o (codes "terraform output -json") >>= λ json. make o json)
    >> trim_read_file "provision/terraform.json"

-- the inner loop of `show-rpcaddrs`, with `sep` and `rpcaddrs`
abbrev pub add_addresses : List Text → Text × Text → Text × Text
add_addresses [] (sep, rpcaddrs) = (sep, rpcaddrs)
add_addresses (ip ∷ ips) (sep, rpcaddrs) =
    add_addresses ips (codes ",", rpcaddrs ++ (sep ++ (ip ++ codes ":26657")))

-- the loop over the clusters
pub add_clusters : Dict Text (List Text) → Text × Text → Text × Text
add_clusters [] acc = acc
add_clusters ((cluster, ips) ∷ rest) acc = add_clusters rest (add_addresses ips acc)

-- `case 'show-rpcaddrs'`
pub show_rpcaddrs : Dict Text (List Text) → Text
unfolding add_clusters
show_rpcaddrs public_ips = (add_clusters public_ips ([], [])).1

-- `public_ips[offset + i] = ips[i]`, from a value of `i` on
pub place_from : ℕ → List Text → Dict ℕ Text → Dict ℕ Text
place_from n [] ips = ips
place_from n (ip ∷ rest) ips = place_from (n + 1) rest (insert n ip ips)

-- the loop over the clusters, of which a cluster without an offset is at `NaN` and places nothing
pub place_clusters : Dict Text (List Text) → Dict Text ℕ → Dict ℕ Text → Dict ℕ Text
unfolding place_from
place_clusters [] offsets ips = ips
place_clusters ((cluster, ips') ∷ rest) offsets ips = elim (lookup cluster offsets) [
  | none ↦ place_clusters rest offsets ips
  | some offset ↦ place_clusters rest offsets (place_from offset ips' ips)
]

pub data PeerError : Type 0 where
  no_node_id : ℕ → PeerError
  invalid_id : ℕ → Text → PeerError
  no_public_ip : ℕ → PeerError
  no_file : PeerError

-- `ID.match(/^[a-f0-9]+/)`
abbrev pub is_id : Text → Bool
is_id [] = false
is_id (c ∷ cs) = is_digit c || (leb b'a' c && leb c b'f')

-- `${ID}@${IP}:${PORT}`
abbrev pub peer : Text → Text → Text
peer id ip = id ++ (b'@' ∷ (ip ++ codes ":26656"))

-- one round of the loop: the text of node `i`
pub peer_of : Dict ℕ Text → ℕ → Text → Result PeerError Text
peer_of ips i [] = err (no_node_id i)
peer_of ips i (c ∷ cs) =
    if is_id (c ∷ cs)
    then elim (lookup i ips) [
      | none ↦ err (no_public_ip i)
      | some [] ↦ err (no_public_ip i)
      | some (d ∷ ds) ↦ ok (peer (c ∷ cs) (d ∷ ds))
    ]
    else err (invalid_id i (c ∷ cs))

-- the loop, over the contents of the files node0/node-id, node1/node-id, ... that are there
pub peers_from : Dict ℕ Text → ℕ → List Text → Text → Text → Result PeerError Text
unfolding peer_of
peers_from ips i [] sep peers = ok peers
peers_from ips i (id ∷ ids) sep peers = elim (peer_of ips i (trim_right id)) [
  | err e ↦ err e
  | ok p ↦ peers_from ips (i + 1) ids (codes ",") (peers ++ (sep ++ p))
]

-- `case 'show-peers'`
pub show_peers : Provision → List Text → Result PeerError Text
unfolding peers_from place_clusters
show_peers prov [] = err no_file
show_peers prov (id ∷ ids) =
    peers_from (place_clusters prov.public_ips prov.offsets []) 0 (id ∷ ids) [] []
