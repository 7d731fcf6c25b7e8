-- ===== src/Ingress/Tests.antt =====
-- Runs of lib/ag-solo/set-gci-ingress.js.
use cosmic_swingset.Ingress.{
  Connection, get_base, sdk_kind, is_duplicate, join, add, add_all, set_gci_ingress,
}
use cosmic_swingset.Ingress.Kinds.{of_kind, set_gci_ingress-keeps}
use cosmic_swingset.Base.{nat_eq, string_eq, list_eq, ℕ, ◌≡◌, refl, List, [], ◌∷◌}
use cosmic_swingset.Base.Dict.{lookup, insert}
use cosmic_swingset.Base.Text.{Text, codes}

abbrev of_chain : Text → Text → Connection ℕ
of_chain gci chain_id = record {
  kind = sdk_kind;
  gci = gci;
  chain_id = chain_id;
  rpc_addresses = [];
  rest = 0;
}

abbrev of_web : ℕ → Connection ℕ
of_web port = record {
  kind = codes "http";
  gci = [];
  chain_id = [];
  rpc_addresses = [];
  rest = port;
}

abbrev old : List (Connection ℕ)
old = of_web 8000 ∷ of_chain (codes "g1") (codes "testnet-1.2") ∷ of_web 8001 ∷ []

set_gci_ingress-keeps_example :
    of_kind (codes "http") (set_gci_ingress old (of_chain (codes "g2") (codes "testnet-1.3")))
    ≡ of_kind (codes "http") old
set_gci_ingress-keeps_example =
    set_gci_ingress-keeps (codes "http") old (of_chain (codes "g2") (codes "testnet-1.3")) (λ e. cc)
      refl

-- The new chain has the same name but for its version, and so replaces the old one.
replaced :
    set_gci_ingress old (of_chain (codes "g2") (codes "testnet-1.3"))
    ≡ of_web 8000 ∷ of_web 8001 ∷ of_chain (codes "g2") (codes "testnet-1.3") ∷ []
unfolding set_gci_ingress add_all add join is_duplicate get_base lookup insert
replaced = refl
