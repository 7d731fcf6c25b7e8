-- ===== src/Setup/Prepare/Tests.antt =====
-- `bootstrap` of a network whose machines take one round of waiting to boot SSH.
use cosmic_swingset.Setup.World.{
  Command, spawn, shell, poll, ask, Outside, State, inited, create_file, perform_command,
  finish_guard, guard_file,
}
use cosmic_swingset.Setup.World.Settles.{IsOk}
use cosmic_swingset.Setup.Bootstrap.Stages.{KeepsStages}
use cosmic_swingset.Setup.Commands.{play, need_play, provision}
use cosmic_swingset.Setup.Prepare.{make_hosts, known_hosts, prepare}
use cosmic_swingset.Setup.Prepare.Once.{is_prepared, prepare-once}
use cosmic_swingset.Base.Dict.{lookup, contains, insert, lookup-insert_ne}
use cosmic_swingset.Base.Text.{Text, codes}
use cosmic_swingset.Files.{Disk}
use cosmic_swingset.Base.{
  if◌then◌else◌, ◌==◌, nat_eq, string_eq, list_eq, ℕ, ◌≡◌, refl, sym, ap, ◌∙◌, ◌≢◌, inl, inr,
  Bool-cases, Bool, true, false, ◌&&◌, not, none, List, [], ◌∷◌,
}

abbrev names_hosts : List Text → Bool
names_hosts (program ∷ playbook ∷ args) = playbook == codes "/setup/ansible/update_known_hosts.yml"
names_hosts _ = false

-- the playbook of the hosts fails with 2 until it has run
abbrev exit_code : Command → Disk → ℕ
exit_code (spawn words) d = if names_hosts words && not (contains "booting" d) then 2 else 0
exit_code _ d = 0

abbrev waiting : Command → Disk → Disk
waiting (spawn words) d = if names_hosts words then insert "booting" [] d else d
waiting _ d = d

abbrev outside : Outside
outside = record {
  perform = λ c d. record { code = exit_code c d; output = codes "hosts"; disk = waiting c d };
  tries = λ words. [];
  create_fails = λ f d. false;
  parse_host = λ json. none;
  now = codes "now";
  progname = codes "ag-setup-cosmos";
  code_dir = codes "/code";
  setup_dir = codes "/setup";
  setup_home = codes "/home";
}

outside-keeps : KeepsStages outside is_prepared
outside-keeps c removes f d st there = waiting-lookup c
  where
    other : "booting" ≢ f
    other e = let same = ap is_prepared e in absurd (true_ne_false (sym st ∙ sym same))
      where
        true_ne_false : true ≢ false
        true_ne_false t = cc

    waiting-lookup : (c : Command) → lookup f (waiting c d) ≡ lookup f d
    waiting-lookup (spawn words) = elim (Bool-cases (names_hosts words)) [
      | inl e ↦ rw e (lookup-insert_ne "booting" f [] d other)
      | inr e ↦ rw e refl
    ]
    waiting-lookup (shell line) = refl
    waiting-lookup (poll words) = refl
    waiting-lookup (ask question) = refl

abbrev started : State
started = record {
  files = ("ansible.cfg", []) ∷ ("vars.tf", []) ∷ ("network.txt", codes "net\n") ∷ [];
  log = [];
  out = [];
}

one_round_is_short : IsOk (prepare outside 1 [] started).0 → ⊥
unfolding prepare guard_file contains make_hosts provision inited perform_command finish_guard
    create_file known_hosts play lookup insert
one_round_is_short h = h

runs : IsOk (prepare outside 2 [] started).0
unfolding prepare guard_file contains make_hosts provision inited perform_command finish_guard
    create_file known_hosts play need_play lookup insert
runs = tt

prepare-once_example :
    let t = (prepare outside 2 [] started).1 in (prepare outside 0 (codes "7x") t).1.log ≡ t.log
prepare-once_example = prepare-once outside outside-keeps 2 0 [] (codes "7x") started runs
