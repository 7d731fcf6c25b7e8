-- ===== src/Setup/Bootstrap/Tests.antt =====
-- Two runs of `bootstrap-cosmos` with programs that all succeed.
use cosmic_swingset.Setup.World.{
  Outside, State, inited, create_file, perform_command, finish_guard, guard_file, await_status,
}
use cosmic_swingset.Setup.World.Settles.{IsOk, started_once}
use cosmic_swingset.Setup.Commands.{play, need_play, wait_for_any, ssh}
use cosmic_swingset.Setup.Bootstrap.{rename_chain, name_with, read_name, name_chain, start_chain}
use cosmic_swingset.Setup.Bootstrap.Controller.{
  start_controller, start_pserver, serve, bootstrap_cosmos,
}
use cosmic_swingset.Setup.Bootstrap.Stages.{
  chain_stages, controller_stages, is_param, chain_name_file, is_stage, is_removal, is_each,
  KeepsStages,
}
use cosmic_swingset.Setup.Bootstrap.Settled.{bootstrap_cosmos-idempotent}
use cosmic_swingset.Setup.Status.{wait_from, wait_for_status}
use cosmic_swingset.Base.Dict.{lookup, contains, insert}
use cosmic_swingset.Base.Text.{Text, codes}
use cosmic_swingset.Files.{Disk}
use cosmic_swingset.Base.{
  if◌then◌else◌, Bool-cases, keep, ◌==◌, ==_iff, nat_eq, string_eq, list_eq, String, ◌≡◌, refl, sym,
  ap, ◌∙◌, ◌≢◌, inl, inr, Bool, true, false, none, some, [], ◌∷◌, ◌++◌, map,
}

-- the files that `rm -rf` leaves
abbrev left : (String → Bool) → Disk → Disk
left p = keep (λ e. p e.0)

lookup-left :
    (p : String → Bool) (f : String) (d : Disk) → p f ≡ true → lookup f (left p d) ≡ lookup f d
unfolding lookup
lookup-left p f [] st = refl
lookup-left p f ((k, t) ∷ d) st = elim (Bool-cases (k == f)) [
  | inl same ↦
      let kept : p k ≡ true = ap p ((==_iff k f).0 same) ∙ st in rw (kept, same, lookup) refl
  | inr other ↦ elim (Bool-cases (p k)) [
    | inl kept ↦ rw (kept, other, lookup) (lookup-left p f d st)
    | inr gone ↦ rw (gone, other, lookup) (lookup-left p f d st)
  ]
]

lookup-not_left :
    (p : String → Bool) (f : String) (d : Disk) → p f ≡ false → lookup f (left p d) ≡ none
unfolding lookup
lookup-not_left p f [] st = refl
lookup-not_left p f ((k, t) ∷ d) st = elim (Bool-cases (p k)) [
  | inr gone ↦ rw (gone, lookup) (lookup-not_left p f d st)
  | inl kept ↦ elim (Bool-cases (k == f)) [
    | inl same ↦ absurd (true_ne_false (sym kept ∙ (ap p ((==_iff k f).0 same) ∙ st)))
    | inr other ↦ rw (kept, other, lookup) (lookup-not_left p f d st)
  ]
]
  where
    true_ne_false : true ≢ false
    true_ne_false e = cc

abbrev status_line : Text
status_line = codes "Committed state module=state height=12: new block on"

abbrev outside : Outside
outside = record {
  perform = λ c d. record {
    code = 0;
    output = codes "10.0.0.1:26657";
    disk = if is_removal c then left is_param d else d;
  };
  tries = λ words. record { output = status_line; code = 0 } ∷ [];
  create_fails = λ f d. false;
  parse_host = λ json. some (record {
    ansible_host = none;
    ansible_ssh_user = none;
    ansible_ssh_private_key_file = none;
  });
  now = codes "now";
  progname = codes "ag-setup-cosmos";
  code_dir = codes "/code";
  setup_dir = codes "/setup";
  setup_home = codes "/home";
}

outside-keeps : KeepsStages outside is_stage
outside-keeps c h f d st there = rw h refl

-- a network whose machines are prepared, and whose chain is not started
abbrev stopped : State
stopped = record {
  files =
      ("ansible.cfg", [])
      ∷ ("vars.tf", [])
      ∷ ("network.txt", codes "net\n")
      ∷ ("chain-version.txt", codes "1.0.0")
      ∷ ("ag-chain-cosmos/chain-name.txt", codes "net-1.0.0")
      ∷ map (λ f. (f, [])) (chain_stages ++ controller_stages);
  log = [];
  out = [];
}

runs : IsOk (bootstrap_cosmos outside [] stopped).0
unfolding bootstrap_cosmos inited contains name_chain guard_file read_name lookup name_with
    rename_chain start_chain start_controller perform_command wait_for_any await_status
    wait_for_status wait_from serve ssh start_pserver finish_guard create_file need_play play insert
runs = tt

bootstrap_cosmos-idempotent_example :
    started_once
      (is_each outside)
      (bootstrap_cosmos outside [] (bootstrap_cosmos outside [] stopped).1).1
    ≡ started_once (is_each outside) (bootstrap_cosmos outside [] stopped).1
bootstrap_cosmos-idempotent_example =
    bootstrap_cosmos-idempotent outside outside-keeps
      (λ d h. lookup-not_left is_param chain_name_file d refl)
      (λ f d st there. lookup-left is_param f d st) [] stopped runs
