-- ===== src/Setup/Machines/Tests.antt =====
-- Runs of `show-rpcaddrs` and `show-peers` for two clusters.
use cosmic_swingset.Base.Dict.{lookup, insert}
use cosmic_swingset.Setup.Machines.{
  Provision, add_clusters, show_rpcaddrs, place_from, place_clusters, peer_of, peers_from,
  show_peers,
}
use cosmic_swingset.Setup.Machines.Joined.{join}
use cosmic_swingset.Setup.Machines.Placed.{printed, all_known, node_texts, show_peers-join}
use cosmic_swingset.Base.Text.{Text, codes}
use cosmic_swingset.Base.{
  if◌then◌else◌, some, none, ok, nat_eq, string_eq, list_eq, ◌≡◌, refl, List, [], ◌∷◌,
}

abbrev two_clusters : Provision
two_clusters = record {
  public_ips =
      (codes "east", codes "10.0.0.1" ∷ codes "10.0.0.2" ∷ [])
      ∷ (codes "west", codes "10.0.1.1" ∷ [])
      ∷ [];
  offsets = (codes "east", 0) ∷ (codes "west", 2) ∷ [];
}

rpcaddrs_shown :
    show_rpcaddrs two_clusters.public_ips ≡ codes "10.0.0.1:26657,10.0.0.2:26657,10.0.1.1:26657"
unfolding show_rpcaddrs add_clusters
rpcaddrs_shown = refl

abbrev node_ids : List Text
node_ids = codes "b\n" ∷ codes "c1\n" ∷ []

show_peers-join_example : printed (show_peers two_clusters (codes "a0\n" ∷ node_ids)) ≡ (
    if all_known two_clusters 0 (codes "a0\n" ∷ node_ids)
    then some (join (node_texts two_clusters 0 (codes "a0\n" ∷ node_ids)))
    else none)
show_peers-join_example = show_peers-join two_clusters (codes "a0\n") node_ids

peers_shown :
    show_peers two_clusters (codes "a0\n" ∷ node_ids)
    ≡ ok (codes "a0@10.0.0.1:26656,b@10.0.0.2:26656,c1@10.0.1.1:26656")
unfolding show_peers place_clusters place_from peers_from peer_of lookup insert
peers_shown = refl
