-- ===== src/Boot.antt =====
-- lib/ag-solo/vats/bootstrap.js: the roles that the arguments give, and what each role sends to the
-- other vats and devices, as a trace of the sends in order. What the sends return is only passed on.
pub mod CommandLine
pub mod Connected
mod Tests
use cosmic_swingset.Boot.CommandLine.{Args, truthy, parse_args, has_role}
use cosmic_swingset.Base.{
  nat_beq, if◌then◌else◌, length, ℕ, not, ◌||◌, Option, none, some, List, [], ◌∷◌, ◌++◌, map,
}
use cosmic_swingset.Base.Text.{Text}

-- The object that an egress exports.
pub data Export : Type 0 where
  provisioner demo_provider : Export

-- What `setCommandDevice` is told of the role.
pub data Facing : Type 0 where
  controller client : Facing

pub data Action : Type 0 where
  -- `D(devices.mailbox).registerInboundHandler`, `E(vats.vattp).registerMailboxDevice`
  register_inbound_mailbox register_mailbox_device : Action
  -- `addRemote(addr)`: the transport, then the comms vat
  add_remote : Text → Action
  make_host pixel_startup provisioning_register : Action
  add_egress : Option Text → ℕ → Export → Action
  set_command_device : Facing → Action
  register_command_handler : Action
  add_ingress : Text → ℕ → Action
  set_provisioner : Action
  -- from the chain, or made here
  get_demo_bundle create_demo_bundle : Action
  set_presences : Action

pub data Thrown : Type 0 where
  not_one_role needs_gci : Thrown

-- What was sent, and how the function ended.
pub record Outcome : Type 0 where
  pub trace : List Action
  pub thrown : Option Thrown

abbrev pub returns : List Action → Outcome
returns trace = record { trace = trace; thrown = none }

abbrev pub throws : Thrown → Outcome
throws e = record { trace = []; thrown = some e }

-- the sends of a block before those of the rest
abbrev pub after : List Action → Outcome → Outcome
after sent o = record o { trace = sent ++ o.trace }

-- `if (!GCI) throw`
abbrev pub with_gci : Option Text → (Text → Outcome) → Outcome
with_gci gci rest = elim (truthy gci) [ none ↦ throws needs_gci | some g ↦ rest g ]

-- the remotes of the command line
abbrev pub remotes : Args → List Action
remotes args = elim (truthy args.boot_address) [
  | none ↦ []
  | some boot ↦ map add_remote (boot ∷ args.additional_addresses)
]

-- scenario #1
pub chain : Args → Outcome
chain args = returns (
    make_host
    ∷ pixel_startup
    ∷ provisioning_register
    ∷ add_egress args.boot_address 1 provisioner
    ∷ [])

pub controller_role : Option Text → Outcome
controller_role gci = with_gci gci (λ g. returns (
    set_command_device controller
    ∷ register_command_handler
    ∷ add_remote g
    ∷ add_ingress g 1
    ∷ set_provisioner
    ∷ []))

-- the client of a chain, in scenarios #1 and #2
pub chain_client : Option Text → Outcome
chain_client gci = with_gci gci (λ g. returns (
    set_command_device client
    ∷ register_command_handler
    ∷ add_remote g
    ∷ add_ingress g 1
    ∷ get_demo_bundle
    ∷ set_presences
    ∷ []))

-- scenario #2
pub local_chain : Args → Outcome
local_chain args = returns (
    make_host
    ∷ pixel_startup
    ∷ add_egress args.boot_address 1 demo_provider
    ∷ map (λ a. add_egress (some a) 1 demo_provider) args.additional_addresses)

-- scenario #3
pub local_client : Outcome
local_client = returns (
    make_host
    ∷ pixel_startup
    ∷ create_demo_bundle
    ∷ set_command_device client
    ∷ register_command_handler
    ∷ set_presences
    ∷ [])

-- the blocks of the roles, in order; a role that none of them names does nothing
pub by_role : Option Text → Args → Outcome
unfolding chain controller_role chain_client local_chain local_client
by_role gci args =
    if has_role "chain" args || has_role "one_chain" args
    then chain args
    else if has_role "controller" args || has_role "one_controller" args
    then controller_role gci
    else if has_role "client" args || has_role "one_client" args
    then chain_client gci
    else if has_role "two_chain" args
    then local_chain args
    else if has_role "two_client" args
    then chain_client gci
    else if has_role "three_client" args
    then local_client
    else returns []

-- `bootstrap(argv, vats, devices)`
pub bootstrap : Option Text → List Text → Outcome
unfolding by_role
bootstrap gci argv =
    let args = parse_args argv in
    after (register_inbound_mailbox ∷ register_mailbox_device ∷ remotes args)
      (if not (nat_beq (length args.roles) 1) then throws not_one_role else by_role gci args)
