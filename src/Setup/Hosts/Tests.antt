-- ===== src/Setup/Hosts/Tests.antt =====
-- A run of `show-hosts` for two providers.
use cosmic_swingset.Base.Text.{codes}
use cosmic_swingset.Setup.Hosts.{prefix_lines, indent}
use cosmic_swingset.Setup.Machines.{Provision}
use cosmic_swingset.Base.{nat_eq, string_eq, list_eq, ◌≡◌, refl, [], ◌∷◌}

abbrev two_providers : Provision
two_providers = record {
  public_ips = (codes "west", codes "10.0.1.1" ∷ []) ∷ (codes "east", codes "10.0.0.1" ∷ []) ∷ [];
  offsets = (codes "east", 0) ∷ (codes "west", 1) ∷ [];
}

indented : indent (codes "a:\n  b\n") ≡ codes "    a:\n      b\n"
unfolding prefix_lines
indented = refl
