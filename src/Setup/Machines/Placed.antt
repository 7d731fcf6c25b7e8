-- ===== src/Setup/Machines/Placed.antt =====
-- `show-peers` of setup/main.js against the output of Terraform: which nodes have an address, and when
-- the peers are printed.
use cosmic_swingset.Base.Dict.{Dict, lookup, insert, lookup-insert}
use cosmic_swingset.Setup.World.{trim_right}
use cosmic_swingset.Setup.Machines.{
  Provision, place_from, place_clusters, PeerError, no_public_ip, is_id, peer, peer_of, show_peers,
}
use cosmic_swingset.Setup.Machines.Joined.{join, prepend, all_peers, output, first_peer}
use cosmic_swingset.Base.Text.{Text, codes}
use cosmic_swingset.Base.{
  leb, nat_beq, if◌then◌else◌, Bool-cases, Option-cases, any, get_elem?, Result, ok, err, ◌==◌,
  nat_eq, string_eq, list_eq, ℕ, suc, ◌+◌, ◌-◌, ◌≡◌, refl, sym, ap, ◌∙◌, inl, inr, Bool, true,
  false, ◌&&◌, Option, none, some, List, [], ◌∷◌, ◌++◌, arith,
}

abbrev or_else : Option Text → Option Text → Option Text
or_else (some t) u = some t
or_else none u = u

or_else-none : (a : Option Text) → or_else a none ≡ a
or_else-none none = refl
or_else-none (some x) = refl

-- the address of a number among those of a cluster whose first node has the number `n`
abbrev pub within : ℕ → List Text → ℕ → Option Text
within n ips i = if leb n i then get_elem? ips (i - n) else none

-- the address of node `i`: from the last cluster whose numbers it is among
unfoldable pub address_at : Dict Text (List Text) → Dict Text ℕ → ℕ → Option Text
address_at [] offsets i = none
address_at ((cluster, ips) ∷ rest) offsets i =
    or_else (address_at rest offsets i)
      (elim (lookup cluster offsets) [ none ↦ none | some offset ↦ within offset ips i ])

lookup-place_from :
    (n : ℕ) (ips : List Text) (d : Dict ℕ Text) (i : ℕ)
    → lookup i (place_from n ips d) ≡ or_else (within n ips i) (lookup i d)
unfolding place_from
lookup-place_from n [] d i = ground arith
lookup-place_from n (ip ∷ ips) d i =
    lookup-place_from (n + 1) ips (insert n ip d) i ∙ rw (lookup-insert n i ip d) shift
  where
    shift :
        or_else (within (n + 1) ips i) (if n == i then some ip else lookup i d)
        ≡ or_else (within n (ip ∷ ips) i) (lookup i d)
    shift = elim (Bool-cases (leb (n + 1) i)) [
      | inl e ↦
          let here : leb n i ≡ true = ground (arith, e) in
          let ahead : (n == i) ≡ false = ground (arith, e) in
          let past : i - n ≡ suc (i - (n + 1)) = ground (arith, e) in rw (e, here, ahead, past) refl
      | inr e ↦ elim (Bool-cases (n == i)) [
        | inl same ↦
            let here : leb n i ≡ true = ground (arith, same) in
            let first : i - n ≡ 0 = ground (arith, same) in rw (e, same, here, first) refl
        | inr other ↦
            let behind : leb n i ≡ false = ground (arith, e, other) in rw (e, other, behind) refl
      ]
    ]

lookup-place_clusters :
    (clusters : Dict Text (List Text)) (offsets : Dict Text ℕ) (d : Dict ℕ Text) (i : ℕ)
    → lookup i (place_clusters clusters offsets d)
      ≡ or_else (address_at clusters offsets i) (lookup i d)
unfolding place_clusters address_at
lookup-place_clusters [] offsets d i = refl
lookup-place_clusters ((cluster, ips) ∷ rest) offsets d i =
    elim (Option-cases (lookup cluster offsets)) [
      | inl e ↦
          rw (e, place_clusters, address_at)
            (lookup-place_clusters rest offsets d i
              ∙ ap (λ t. or_else t (lookup i d)) (sym (or_else-none (address_at rest offsets i))))
      | inr (o, e) ↦
          rw (e, place_clusters, address_at)
            (lookup-place_clusters rest offsets (place_from o ips d) i
              ∙ rw (lookup-place_from o ips d i)
                  (or_else-assoc (address_at rest offsets i) (within o ips i) (lookup i d)))
    ]
  where
    or_else-assoc : (a b c : Option Text) → or_else a (or_else b c) ≡ or_else (or_else a b) c
    or_else-assoc (some x) b c = refl
    or_else-assoc none b c = refl

-- the first character is a hexadecimal digit, in lower case
abbrev pub starts_hex : Text → Bool
starts_hex [] = false
starts_hex (c ∷ cs) = any (nat_beq c) (codes "0123456789abcdef")

abbrev pub is_address : Option Text → Bool
is_address (some (c ∷ cs)) = true
is_address _ = false

abbrev pub text_of : Option Text → Text
text_of none = []
text_of (some t) = t

is_id-hex : (t : Text) → is_id t ≡ starts_hex t
is_id-hex [] = refl
is_id-hex (c ∷ cs) = ground arith

abbrev pub printed {ℓ} : {A : Type ℓ} → Result PeerError A → Option A
printed (ok a) = some a
printed (err e) = none

module _ (prov : Provision) where
  abbrev pub address : ℕ → Option Text
  address i = address_at prov.public_ips prov.offsets i

  -- from node `i` on, every node has an id and an address
  abbrev pub all_known : ℕ → List Text → Bool
  all_known i [] = true
  all_known i (id ∷ ids) =
      (starts_hex (trim_right id) && is_address (address i)) && all_known (i + 1) ids

  -- `id@address:26656` of every node
  abbrev pub node_texts : ℕ → List Text → List Text
  node_texts i [] = []
  node_texts i (id ∷ ids) =
      (trim_right id ++ (codes "@" ++ (text_of (address i) ++ codes ":26656")))
      ∷ node_texts (i + 1) ids

  -- what a text comes to with an address
  peer_if : Text → Option Text → Option Text
  peer_if id ip =
      if starts_hex id && is_address ip
      then some (id ++ (codes "@" ++ (text_of ip ++ codes ":26656")))
      else none

  peer_of-printed :
      (ips : Dict ℕ Text) (i : ℕ) (id : Text)
      → printed (peer_of ips i id) ≡ peer_if id (lookup i ips)
  unfolding peer_of peer_if
  peer_of-printed ips i [] = refl
  peer_of-printed ips i (c ∷ cs) = elim (Bool-cases (is_id (c ∷ cs))) [
    | inr e ↦ rw (e, peer_of, sym (is_id-hex (c ∷ cs)), e, peer_if) refl
    | inl e ↦ rw (e, peer_of, peer_if, sym (is_id-hex (c ∷ cs)), e) (by_address (lookup i ips))
  ]
    where
      by_address :
          (ip : Option Text)
          → printed (elim ip as (λ x. Result PeerError Text) [
            | none ↦ err (no_public_ip i)
            | some [] ↦ err (no_public_ip i)
            | some (d ∷ ds) ↦ ok (peer (c ∷ cs) (d ∷ ds))
          ])
            ≡ (if is_address ip
                then some ((c ∷ cs) ++ (codes "@" ++ (text_of ip ++ codes ":26656")))
                else none)
      by_address none = refl
      by_address (some []) = refl
      by_address (some (d ∷ ds)) = refl

  -- one peer in front of the others
  by_peer :
      (r : Result PeerError Text) (rest : Result PeerError (List Text)) (b known : Bool) (t : Text)
      (ts : List Text)
      → printed r ≡ (if b then some t else none)
      → printed rest ≡ (if known then some ts else none)
      → printed
          (elim r as (λ x. Result PeerError (List Text)) [ err e ↦ err e | ok p ↦ prepend p rest ])
        ≡ (if b && known then some (t ∷ ts) else none)
  by_peer (err e) rest true known t ts q h = absurd (ground (arith, q))
  by_peer (err e) rest false known t ts q h = refl
  by_peer (ok p) rest false known t ts q h = absurd (ground (arith, q))
  by_peer (ok p) (err e) true true t ts q h = absurd (ground (arith, h))
  by_peer (ok p) (err e) true false t ts q h = refl
  by_peer (ok p) (ok ps) true false t ts q h = absurd (ground (arith, h))
  by_peer (ok p) (ok ps) true true t ts q h =
      let same : p ≡ t = ground (arith, q) in
      let all : ps ≡ ts = ground (arith, h) in rw (same, all) refl

  -- the addresses by their numbers, as the command places them
  placed : Dict ℕ Text
  placed = place_clusters prov.public_ips prov.offsets []

  lookup-placed : (i : ℕ) → lookup i placed ≡ address i
  unfolding placed lookup address_at
  lookup-placed i =
      lookup-place_clusters prov.public_ips prov.offsets [] i ∙ or_else-none (address i)

  all_peers-printed :
      (i : ℕ) (ids : List Text)
      → printed (all_peers placed i ids)
        ≡ (if all_known i ids then some (node_texts i ids) else none)
  unfolding all_peers peer_if
  all_peers-printed i [] = refl
  all_peers-printed i (id ∷ ids) =
      by_peer (peer_of placed i (trim_right id)) (all_peers placed (i + 1) ids)
        (starts_hex (trim_right id) && is_address (address i)) (all_known (i + 1) ids)
        (trim_right id ++ (codes "@" ++ (text_of (address i) ++ codes ":26656")))
        (node_texts (i + 1) ids)
        (peer_of-printed placed i (trim_right id) ∙ ap (peer_if (trim_right id)) (lookup-placed i))
        (all_peers-printed (i + 1) ids)

  printed-output :
      (r : Result PeerError (List Text)) (b : Bool) (ts : List Text)
      → printed r ≡ (if b then some ts else none)
      → printed (output r) ≡ (if b then some (join ts) else none)
  printed-output (err e) true ts h = absurd (ground (arith, h))
  printed-output (err e) false ts h = refl
  printed-output (ok ps) true ts h = let same : ps ≡ ts = ground (arith, h) in rw same refl
  printed-output (ok ps) false ts h = absurd (ground (arith, h))

  -- `show-peers`, where node0 has a file, prints `id@address:26656` for every node with a file, in the
  -- order of their numbers, joined by commas, exactly if every one of them has an id that starts with a
  -- hexadecimal digit and an address that is not empty: that of its number in the last cluster that
  -- covers it, counted from the cluster's offset. Otherwise it throws.
  pub show_peers-join :
      (id : Text) (ids : List Text)
      → printed (show_peers prov (id ∷ ids))
        ≡ (if all_known 0 (id ∷ ids) then some (join (node_texts 0 (id ∷ ids))) else none)
  unfolding show_peers placed
  show_peers-join id ids =
      ap printed (first_peer placed id ids)
      ∙ printed-output (all_peers placed 0 (id ∷ ids)) (all_known 0 (id ∷ ids))
          (node_texts 0 (id ∷ ids)) (all_peers-printed 0 (id ∷ ids))
