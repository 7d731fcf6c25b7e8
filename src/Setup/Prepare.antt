-- ===== src/Setup/Prepare.antt =====
-- `bootstrap` of setup/main.js, in a directory that `init` has set up: from a network without machines
-- to a running chain.
mod Once
mod Tests
use cosmic_swingset.Setup.World.{
  Outside, still_waits, M, ◌>>=◌, ◌>>◌, pure, throw, need_backtick, own_command, guard_file, make,
  stamp,
}
use cosmic_swingset.Setup.Commands.{play, need_play, provision}
use cosmic_swingset.Setup.Bootstrap.Controller.{bootstrap_cosmos}
use cosmic_swingset.Base.Text.{Text, codes}
use cosmic_swingset.Files.Guard.{Maker}
use cosmic_swingset.Base.{if◌then◌else◌, nat_beq, ok, ℕ, zero, suc, none, some, [], ◌∷◌}

-- a call without `await`, whose turns come before those that follow it, and whose failure is not seen
abbrev pub detached : M (Unit {0}) → M (Unit {0})
detached m s = (ok tt, (m s).1)

-- `bootTokens`
abbrev pub boot_tokens : Text → Text
boot_tokens [] = codes "1000000agmedallion"
boot_tokens (c ∷ cs) = c ∷ cs

module _ (o : Outside) where
  -- the maker of `hosts`
  unfoldable pub make_hosts : M Maker
  make_hosts =
      provision o (codes "-auto-approve" ∷ [])
      >> need_backtick o (own_command o "show-hosts")
      >>= λ hosts. make o hosts

  -- the loop of `update_known_hosts`, for so many rounds
  unfoldable pub known_hosts : ℕ → M Maker
  known_hosts zero = throw still_waits
  known_hosts (suc rounds) =
      let again = known_hosts rounds in
      play o (codes "update_known_hosts" ∷ []) >>= λ code.
      if nat_beq code 0
      then stamp o (pure tt)
      else if nat_beq code 2
      then again
      else pure (record { contents = none; returned = some code })

  -- the files of `bootstrap` that it guards
  unfoldable pub prepare : ℕ → Text → M (Unit {0})
  prepare rounds tokens =
      detached (guard_file o "boot-tokens.txt" (make o (boot_tokens tokens)))
      >> guard_file o "provision/hosts" make_hosts
      >> guard_file o "provision/ssh_known_hosts.stamp" (known_hosts rounds)
      >> guard_file o "provision/prepare.stamp"
          (stamp o (need_play o (codes "prepare-machine" ∷ [])))

  -- `case 'bootstrap'`, where there is a `network.txt`, with the value of `--bump`
  pub bootstrap : ℕ → Text → Text → M Text
  bootstrap rounds tokens bump = prepare rounds tokens >> bootstrap_cosmos o bump
