-- ===== src/Boot/Connected.antt =====
-- lib/ag-solo/vats/bootstrap.js: the order of `addRemote` and of what is sent about a peer.
use cosmic_swingset.Boot.{
  Export, demo_provider, Action, add_remote, add_egress, add_ingress, not_one_role, Outcome,
  returns, throws, with_gci, remotes, chain, controller_role, chain_client, local_chain,
  local_client, by_role, bootstrap,
}
use cosmic_swingset.Boot.CommandLine.{Args, truthy, parse_args, has_role}
use cosmic_swingset.Base.{
  nat_beq, if◌then◌else◌, length, any, All, All-weaken, ◌==◌, ==_refl, nat_eq, string_eq, list_eq,
  ℕ, ◌≡◌, refl, Bool, true, false, not, ◌||◌, Option, none, some, List, [], ◌∷◌, ◌++◌, map, arith,
}
use cosmic_swingset.Base.Text.{Text}

-- Every peer of an egress or ingress was added as a remote before, or was known.
abbrev pub IsConnected : (Text → Bool) → List Action → Type 0
IsConnected known [] = Unit
IsConnected known (add_remote a ∷ rest) = IsConnected (λ b. b == a || known b) rest
IsConnected known (add_egress none n x ∷ rest) = ⊥
IsConnected known (add_egress (some a) n x ∷ rest) = (known a ≡ true) × IsConnected known rest
IsConnected known (add_ingress a n ∷ rest) = (known a ≡ true) × IsConnected known rest
IsConnected known (_ ∷ rest) = IsConnected known rest

IsConnected-mono :
    (k k' : Text → Bool) (as' : List Action)
    → ((a : Text) → k a ≡ true → k' a ≡ true)
    → IsConnected k as'
    → IsConnected k' as'
IsConnected-mono k k' [] m h = tt
IsConnected-mono k k' (add_remote a ∷ rest) m h =
    IsConnected-mono (λ b. b == a || k b) (λ b. b == a || k' b) rest (λ b. ground (arith, m b)) h
IsConnected-mono k k' (add_egress none n x ∷ rest) m h = h
IsConnected-mono k k' (add_egress (some a) n x ∷ rest) m h =
    (m a h.0, IsConnected-mono k k' rest m h.1)
IsConnected-mono k k' (add_ingress a n ∷ rest) m h = (m a h.0, IsConnected-mono k k' rest m h.1)
IsConnected-mono k k' (_ ∷ rest) m h = IsConnected-mono k k' rest m h

-- once the remotes are added, all of them are known
remotes-IsConnected :
    (k : Text → Bool) (addrs : List Text) (rest : List Action)
    → IsConnected (λ b. any (λ a. b == a) addrs || k b) rest
    → IsConnected k (map add_remote addrs ++ rest)
remotes-IsConnected k [] rest h = h
remotes-IsConnected k (a ∷ addrs) rest h =
    remotes-IsConnected (λ b. b == a || k b) addrs rest
      (IsConnected-mono (λ b. any (λ c. b == c) (a ∷ addrs) || k b)
        (λ b. any (λ c. b == c) addrs || (b == a || k b)) rest (λ b. ground arith) h)

egresses-IsConnected :
    (k : Text → Bool) (n : ℕ) (x : Export) (addrs : List Text)
    → All (λ a. k a ≡ true) addrs
    → IsConnected k (map (λ a. add_egress (some a) n x) addrs)
egresses-IsConnected k n x [] h = tt
egresses-IsConnected k n x (a ∷ addrs) h = (h.0, egresses-IsConnected k n x addrs h.1)

pick-IsConnected :
    (k : Text → Bool) (b : Bool) (x y : Outcome)
    → IsConnected k x.trace
    → IsConnected k y.trace
    → IsConnected k (if b then x else y).trace
pick-IsConnected k true x y hx hy = hx
pick-IsConnected k false x y hx hy = hy

with_gci-IsConnected :
    (k : Text → Bool) (gci : Option Text) (rest : Text → Outcome)
    → ((g : Text) → IsConnected k (rest g).trace)
    → IsConnected k (with_gci gci rest).trace
with_gci-IsConnected k none rest h = tt
with_gci-IsConnected k (some []) rest h = tt
with_gci-IsConnected k (some (c ∷ cs)) rest h = h (c ∷ cs)

controller_role-IsConnected :
    (k : Text → Bool) (gci : Option Text) → IsConnected k (controller_role gci).trace
unfolding controller_role
controller_role-IsConnected k gci =
    with_gci-IsConnected k gci _ (λ g. (ground (arith, ==_refl g), tt))

chain_client-IsConnected :
    (k : Text → Bool) (gci : Option Text) → IsConnected k (chain_client gci).trace
unfolding chain_client
chain_client-IsConnected k gci = with_gci-IsConnected k gci _ (λ g. (ground (arith, ==_refl g), tt))

local_client-IsConnected : (k : Text → Bool) → IsConnected k local_client.trace
unfolding local_client
local_client-IsConnected k = tt

module _ (k : Text → Bool) (gci : Option Text) (args : Args) (boot : Text)
    (given : args.boot_address ≡ some boot) (known : k boot ≡ true)
    (others : All (λ a. k a ≡ true) args.additional_addresses) where
  chain-IsConnected : IsConnected k (chain args).trace
  unfolding chain
  chain-IsConnected = rw given (known, tt)

  local_chain-IsConnected : IsConnected k (local_chain args).trace
  unfolding local_chain
  local_chain-IsConnected =
      rw given (known, egresses-IsConnected k 1 demo_provider args.additional_addresses others)

  by_role-IsConnected : IsConnected k (by_role gci args).trace
  unfolding by_role
  by_role-IsConnected =
      pick-IsConnected k (has_role "chain" args || has_role "one_chain" args) _ _ chain-IsConnected
        (pick-IsConnected k (has_role "controller" args || has_role "one_controller" args) _ _
          (controller_role-IsConnected k gci)
          (pick-IsConnected k (has_role "client" args || has_role "one_client" args) _ _
            (chain_client-IsConnected k gci)
            (pick-IsConnected k (has_role "two_chain" args) _ _ local_chain-IsConnected (
              pick-IsConnected k (has_role "two_client" args) _ _ (chain_client-IsConnected k gci) (
                pick-IsConnected k (has_role "three_client" args) local_client (returns [])
                  (local_client-IsConnected k) tt)))))

truthy-some : (o : Option Text) (b : Text) → truthy o ≡ some b → o ≡ some b
truthy-some none b e = e
truthy-some (some []) b e = ground (arith, e)
truthy-some (some (c ∷ cs)) b e = e

self-known :
    (k : Text → Bool) (as' : List Text) → All (λ a. (any (λ c. a == c) as' || k a) ≡ true) as'
self-known k [] = tt
self-known k (a ∷ as') =
    (ground (arith, ==_refl a), All-weaken _ _ (λ b h. ground (arith, h)) as' (self-known k as'))

body-IsConnected :
    (k : Text → Bool) (gci : Option Text) (args : Args) (boot : Text)
    → truthy args.boot_address ≡ some boot
    → All (λ a. k a ≡ true) (boot ∷ args.additional_addresses)
    → IsConnected k
        (if not (nat_beq (length args.roles) 1)
          then throws not_one_role
          else by_role gci args).trace
body-IsConnected k gci args boot e h =
    pick-IsConnected k (not (nat_beq (length args.roles) 1)) (throws not_one_role)
      (by_role gci args) tt
      (by_role-IsConnected k gci args boot (truthy-some args.boot_address boot e) h.0 h.1)

remotes-given :
    (args : Args) (boot : Text)
    → truthy args.boot_address ≡ some boot
    → remotes args ≡ map add_remote (boot ∷ args.additional_addresses)
remotes-given args boot e = rw (e, remotes) refl

-- When the arguments give a boot address, then for every role that the command line can name, no
-- object is exported to or imported from a peer before `addRemote` was sent for that peer.
pub bootstrap-IsConnected :
    (gci : Option Text) (argv : List Text) (boot : Text)
    → truthy (parse_args argv).boot_address ≡ some boot
    → IsConnected (λ _. false) (bootstrap gci argv).trace
unfolding bootstrap
bootstrap-IsConnected gci argv boot e =
    let args = parse_args argv in
    rw (remotes-given args boot e) (
      remotes-IsConnected (λ _. false) (boot ∷ args.additional_addresses) _
        (body-IsConnected _ gci args boot e
          (self-known (λ _. false) (boot ∷ args.additional_addresses))))
