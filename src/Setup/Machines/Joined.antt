-- ===== src/Setup/Machines/Joined.antt =====
-- The outputs of `show-rpcaddrs` and `show-peers` of setup/main.js, as lists that are joined.
use mathlib.Core.List.{append_assoc, append-nil}
use cosmic_swingset.Base.Dict.{Dict}
use cosmic_swingset.Setup.World.{trim_right}
use cosmic_swingset.Setup.Machines.{
  add_addresses, add_clusters, show_rpcaddrs, PeerError, peer_of, peers_from,
}
use cosmic_swingset.Base.Text.{Text, codes}
use cosmic_swingset.Base.{
  Result, ok, err, Result-cases, nat_eq, string_eq, list_eq, ℕ, ◌+◌, ◌≡◌, refl, sym, ap, ◌∙◌, inl,
  inr, List, [], ◌∷◌, ◌++◌, map,
}

-- `texts.join(',')`
unfoldable pub join : List Text → Text
join [] = []
join (t ∷ []) = t
join (t ∷ u ∷ ts) = t ++ (b',' ∷ join (u ∷ ts))

-- The texts behind the first one, each with its separator.
joined : List Text → Text
joined [] = []
joined (t ∷ ts) = b',' ∷ (t ++ joined ts)

join-cons : (t : Text) (ts : List Text) → join (t ∷ ts) ≡ t ++ joined ts
unfolding join joined
join-cons t [] = sym (append-nil t)
join-cons t (u ∷ ts) = ap (λ x. t ++ (b',' ∷ x)) (join-cons u ts)

-- the address of every node, in order
abbrev addresses : Dict Text (List Text) → List Text
addresses [] = []
addresses ((cluster, ips) ∷ rest) = map (λ ip. ip ++ codes ":26657") ips ++ addresses rest

append_comma :
    (acc t : Text) (ts : List Text)
    → (acc ++ (codes "," ++ t)) ++ joined ts ≡ acc ++ joined (t ∷ ts)
unfolding joined
append_comma acc t ts = append_assoc acc (codes "," ++ t) (joined ts)

add_addresses-joined :
    (ips : List Text) (acc : Text)
    → add_addresses ips (codes ",", acc)
      ≡ (codes ",", acc ++ joined (map (λ ip. ip ++ codes ":26657") ips))
unfolding joined
add_addresses-joined [] acc = ap (λ t. (codes ",", t)) (sym (append-nil acc))
add_addresses-joined (ip ∷ ips) acc =
    add_addresses-joined ips (acc ++ (codes "," ++ (ip ++ codes ":26657")))
    ∙ ap (λ t. (codes ",", t)) (append_comma acc (ip ++ codes ":26657") _)

joined-append : (xs ys : List Text) → joined (xs ++ ys) ≡ joined xs ++ joined ys
unfolding joined
joined-append [] ys = refl
joined-append (x ∷ xs) ys =
    ap (λ t. b',' ∷ (x ++ t)) (joined-append xs ys)
    ∙ ap (λ t. b',' ∷ t) (sym (append_assoc x (joined xs) (joined ys)))

add_clusters-joined :
    (clusters : Dict Text (List Text)) (acc : Text)
    → add_clusters clusters (codes ",", acc) ≡ (codes ",", acc ++ joined (addresses clusters))
unfolding joined add_clusters
add_clusters-joined [] acc = ap (λ t. (codes ",", t)) (sym (append-nil acc))
add_clusters-joined ((cluster, ips) ∷ rest) acc =
    let here = map (λ ip. ip ++ codes ":26657") ips in
    ap (add_clusters rest) (add_addresses-joined ips acc)
    ∙ add_clusters-joined rest (acc ++ joined here)
    ∙ ap (λ t. (codes ",", t))
        (append_assoc acc (joined here) (joined (addresses rest))
          ∙ ap (λ t. acc ++ t) (sym (joined-append here (addresses rest))))

-- `show-rpcaddrs` prints the address of every node of every cluster, in order, joined by commas.
show_rpcaddrs-join :
    (clusters : Dict Text (List Text)) → show_rpcaddrs clusters ≡ join (addresses clusters)
unfolding show_rpcaddrs add_clusters join
show_rpcaddrs-join [] = refl
show_rpcaddrs-join ((cluster, []) ∷ rest) = show_rpcaddrs-join rest
show_rpcaddrs-join ((cluster, ip ∷ ips) ∷ rest) =
    let here = map (λ x. x ++ codes ":26657") ips in
    ap (λ a. (add_clusters rest a).1) (add_addresses-joined ips (ip ++ codes ":26657"))
    ∙ ap (λ a. a.1) (add_clusters-joined rest _)
    ∙ (append_assoc (ip ++ codes ":26657") (joined here) (joined (addresses rest))
        ∙ (ap (λ t. (ip ++ codes ":26657") ++ t) (sym (joined-append here (addresses rest)))
            ∙ sym (join-cons (ip ++ codes ":26657") (here ++ addresses rest))))

abbrev pub prepend : Text → Result PeerError (List Text) → Result PeerError (List Text)
prepend p (err e) = err e
prepend p (ok ps) = ok (p ∷ ps)

-- the texts of the peers, or the first error
unfoldable pub all_peers : Dict ℕ Text → ℕ → List Text → Result PeerError (List Text)
all_peers ips i [] = ok []
all_peers ips i (id ∷ ids) = elim (peer_of ips i (trim_right id)) [
  | err e ↦ err e
  | ok p ↦ prepend p (all_peers ips (i + 1) ids)
]

-- a list that is there, as the output of the command
abbrev pub output : Result PeerError (List Text) → Result PeerError Text
output (err e) = err e
output (ok ps) = ok (join ps)

abbrev extend : Text → Result PeerError (List Text) → Result PeerError Text
extend acc (err e) = err e
extend acc (ok ps) = ok (acc ++ joined ps)

extend-prepend :
    (acc p : Text) (r : Result PeerError (List Text))
    → extend (acc ++ (codes "," ++ p)) r ≡ extend acc (prepend p r)
extend-prepend acc p (err e) = refl
extend-prepend acc p (ok ps) = ap ok (append_comma acc p ps)

output-prepend : (p : Text) (r : Result PeerError (List Text)) → extend p r ≡ output (prepend p r)
output-prepend p (err e) = refl
output-prepend p (ok ps) = ap ok (sym (join-cons p ps))

peers_from-joined :
    (ips : Dict ℕ Text) (i : ℕ) (ids : List Text) (acc : Text)
    → peers_from ips i ids (codes ",") acc ≡ extend acc (all_peers ips i ids)
unfolding peers_from all_peers joined
peers_from-joined ips i [] acc = ap ok (sym (append-nil acc))
peers_from-joined ips i (id ∷ ids) acc = elim (Result-cases (peer_of ips i (trim_right id))) [
  | inr (x, e) ↦ rw (e, peers_from, all_peers) refl
  | inl (p, e) ↦
      rw (e, peers_from, all_peers)
        (peers_from-joined ips (i + 1) ids (acc ++ (codes "," ++ p))
          ∙ extend-prepend acc p (all_peers ips (i + 1) ids))
]

pub first_peer :
    (ips : Dict ℕ Text) (id : Text) (ids : List Text)
    → peers_from ips 0 (id ∷ ids) [] [] ≡ output (all_peers ips 0 (id ∷ ids))
unfolding peers_from all_peers
first_peer ips id ids = elim (Result-cases (peer_of ips 0 (trim_right id))) [
  | inr (x, e) ↦ rw (e, peers_from, all_peers) refl
  | inl (p, e) ↦
      rw (e, peers_from, all_peers)
        (peers_from-joined ips 1 ids p ∙ output-prepend p (all_peers ips 1 ids))
]
