-- ===== src/Setup/Prepare/Once.antt =====
-- `bootstrap` of setup/main.js up to the prepared machines, run again.
use cosmic_swingset.Setup.World.{
  Command, spawn, Outside, State, unless, need_do_run, create_file, finish_guard, guard_file, make,
}
use cosmic_swingset.Setup.World.Settles.{IsOk, Keeps, >>=-Keeps, Settles, >>-Settles}
use cosmic_swingset.Setup.World.Guarded.{same-Keeps, guard_file-Keeps, guard_file-Settles}
use cosmic_swingset.Setup.Bootstrap.Stages.{
  is_removal, KeepsStages, need_do_run-Keeps, inited-Keeps, play-Keeps, stamp_play-Keeps,
  shell-Keeps,
}
use cosmic_swingset.Setup.Prepare.{detached, boot_tokens, make_hosts, known_hosts, prepare}
use cosmic_swingset.Setup.Commands.{provision}
use cosmic_swingset.Base.Text.{Text, codes}
use cosmic_swingset.Base.{
  Bool-cases, nat_beq, any, keep, ◌==◌, nat_eq, string_eq, list_eq, ℕ, zero, suc, String, ◌≡◌, refl,
  sym, ap, ◌∙◌, inl, inr, Bool, true, false, List, [], ◌∷◌, arith,
}

abbrev pub prepared_stages : List String
prepared_stages =
    "provision/hosts" ∷ "provision/ssh_known_hosts.stamp" ∷ "provision/prepare.stamp" ∷ []

abbrev pub is_prepared : String → Bool
is_prepared f = any (λ g. g == f) prepared_stages

-- no command is to be started each time
abbrev never : Command → Bool
never c = false

keep-all : (cs : List Command) → keep (λ c. true) cs ≡ cs
keep-all [] = refl
keep-all (c ∷ cs) = ap (λ l. c ∷ l) (keep-all cs)

module _ (o : Outside) (keeps : KeepsStages o is_prepared) where
  command-Keeps :
      (words : List Text)
      → is_removal (spawn words) ≡ false
      → Keeps is_prepared (need_do_run o words)
  command-Keeps words e = need_do_run-Keeps o words (keeps (spawn words) e)

  provision-Keeps : Keeps is_prepared (provision o (codes "-auto-approve" ∷ []))
  unfolding provision
  provision-Keeps =
      >>=-Keeps _ (>>=-Keeps _ (inited-Keeps o) λ a. same-Keeps λ s. refl)
        λ found. >>=-Keeps _ (init found) λ a. command-Keeps _ refl
    where
      init :
          (found : Bool)
          → Keeps is_prepared (unless found (need_do_run o (codes "terraform" ∷ codes "init" ∷ [])))
      init true = same-Keeps λ s. refl
      init false = command-Keeps _ refl

  make_hosts-Keeps : Keeps is_prepared (make_hosts o)
  unfolding make_hosts
  make_hosts-Keeps =
      >>=-Keeps _ (>>=-Keeps _ provision-Keeps λ a. shell-Keeps o keeps _)
        λ hosts. same-Keeps λ s. refl

  known_hosts-Keeps : (rounds : ℕ) → Keeps is_prepared (known_hosts o rounds)
  unfolding known_hosts
  known_hosts-Keeps zero = same-Keeps λ s. refl
  known_hosts-Keeps (suc rounds) = >>=-Keeps _ (play-Keeps o keeps _) λ code.
      elim (Bool-cases (nat_beq code 0)) [
        | inl e ↦ rw e (same-Keeps λ s. refl)
        | inr e ↦ elim (Bool-cases (nat_beq code 2)) [
          | inl f ↦ rw (e, f) (known_hosts-Keeps rounds)
          | inr f ↦ rw (e, f) (same-Keeps λ s. refl)
        ]
      ]

  tokens-Settles :
      (tokens : Text)
      → Settles is_prepared never []
          (detached (guard_file o "boot-tokens.txt" (make o (boot_tokens tokens))))
  unfolding guard_file finish_guard create_file
  tokens-Settles tokens = record {
    staged = tt;
    kept = record {
      keeps =
          (guard_file-Keeps o "boot-tokens.txt" {is_stage = is_prepared}
            (same-Keeps {m = make o (boot_tokens tokens)} λ s. refl)).keeps;
    };
    makes = λ s h. tt;
    quiet = λ s h. ap (keep (λ c. true)) (ground arith);
  }

  prepare-Settles :
      (rounds : ℕ) (tokens : Text)
      → Settles is_prepared never prepared_stages (prepare o rounds tokens)
  unfolding prepare
  prepare-Settles rounds tokens =
      >>-Settles
        (>>-Settles
          (>>-Settles (tokens-Settles tokens) refl
            (guard_file-Settles o "provision/hosts" refl make_hosts-Keeps))
          refl
          (guard_file-Settles o "provision/ssh_known_hosts.stamp" refl (known_hosts-Keeps rounds)))
        refl (guard_file-Settles o "provision/prepare.stamp" refl (stamp_play-Keeps o keeps _))

  -- Where `bootstrap` has prepared the machines, preparing them again starts no command at all, for
  -- any tokens and any number of rounds. The programs may do anything, but that none other than
  -- `rm -rf` changes a guarded file that is there.
  pub prepare-once :
      (rounds later : ℕ) (tokens others : Text) (s : State)
      → IsOk (prepare o rounds tokens s).0
      → let t = (prepare o rounds tokens s).1 in (prepare o later others t).1.log ≡ t.log
  prepare-once rounds later tokens others s h =
      let t = (prepare o rounds tokens s).1 in
      sym (keep-all (prepare o later others t).1.log)
      ∙ (prepare-Settles later others).quiet t ((prepare-Settles rounds tokens).makes s h)
      ∙ keep-all t.log
