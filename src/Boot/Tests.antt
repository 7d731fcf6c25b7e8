-- ===== src/Boot/Tests.antt =====
-- Runs of lib/ag-solo/vats/bootstrap.js.
use cosmic_swingset.Boot.{
  demo_provider, register_inbound_mailbox, register_mailbox_device, add_remote, make_host,
  pixel_startup, add_egress, local_chain, by_role, bootstrap,
}
use cosmic_swingset.Boot.CommandLine.{parse_arg, parse_from, parse_args}
use cosmic_swingset.Boot.Connected.{IsConnected, bootstrap-IsConnected}
use cosmic_swingset.Base.{◌≡◌, refl, false, none, some, List, [], ◌∷◌}
use cosmic_swingset.Base.Text.{Text, codes}

abbrev arguments : List Text
arguments = codes "--role=two_chain" ∷ codes "solo1" ∷ codes "solo2" ∷ []

bootstrap-IsConnected_example : IsConnected (λ _. false) (bootstrap none arguments).trace
unfolding parse_args parse_from parse_arg
bootstrap-IsConnected_example = bootstrap-IsConnected none arguments (codes "solo1") refl

exports :
    (bootstrap none arguments).trace
    ≡ register_inbound_mailbox
      ∷ register_mailbox_device
      ∷ add_remote (codes "solo1")
      ∷ add_remote (codes "solo2")
      ∷ make_host
      ∷ pixel_startup
      ∷ add_egress (some (codes "solo1")) 1 demo_provider
      ∷ add_egress (some (codes "solo2")) 1 demo_provider
      ∷ []
unfolding bootstrap by_role local_chain parse_args parse_from parse_arg
exports = refl
