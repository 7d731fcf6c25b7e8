-- ===== src/Setup/Bootstrap/Phases.antt =====
-- Each part of `bootstrap-cosmos` of setup/main.js behind the chain's name settles.
use cosmic_swingset.Setup.World.{
  shell, Outside, ◌>>=◌, ◌>>◌, pure, write_out, inited, need_backtick, own_command, guard_file,
  stamp,
}
use cosmic_swingset.Setup.World.Settles.{Settles, >>=-Settles, >>-Settles}
use cosmic_swingset.Setup.World.Guarded.{
  same-Keeps, same-Settles, perform_command-Settles, await_status-Settles, guard_file-Settles,
}
use cosmic_swingset.Setup.Commands.{need_play, status_playbook, wait_for_any}
use cosmic_swingset.Setup.Bootstrap.{service_words, make_output, start_chain}
use cosmic_swingset.Setup.Bootstrap.Controller.{
  first_host, solo_words, pserver_words, start_controller, pubkeys_words, start_pserver,
  exists_named, serve,
}
use cosmic_swingset.Setup.Bootstrap.Stages.{
  chain_stages, controller_stages, server_stages, is_stage, is_each, KeepsStages, stamp-Keeps,
  stamp_play-Keeps, make_output-Keeps, make_genesis-Keeps, start_solo-Keeps, ssh-Keeps,
}
use cosmic_swingset.Base.Match.{replace_all}
use cosmic_swingset.Base.Text.{Text, codes}
use cosmic_swingset.Base.{
  Option-cases, ==_refl, nat_eq, string_eq, list_eq, String, ◌≡◌, refl, inl, inr, Bool, true, ◌&&◌,
  List, [], ◌∷◌, ◌++◌, arith,
}

abbrev watched : Outside → List Text
watched o =
    status_playbook o (codes "ag-chain-cosmos") (codes "ag-chain-cosmos") (codes "ag-chain-cosmos")

module _ (o : Outside) (keeps : KeepsStages o is_stage) where
  each-Settles :
      (cmd : String)
      → is_each o (shell (own_command o cmd)) ≡ true
      → Settles is_stage (is_each o) [] (need_backtick o (own_command o cmd))
  each-Settles cmd e =
      >>=-Settles (perform_command-Settles o (is_each o) _ (keeps _ refl) e) refl
        λ r. same-Settles λ s. ground arith

  wait-Settles : Settles is_stage (is_each o) [] (wait_for_any o [] >>= λ height. pure tt)
  unfolding wait_for_any inited
  wait-Settles =
      >>=-Settles
        (>>-Settles {m = inited} (same-Settles λ s. ground arith) refl
          (await_status-Settles o (is_each o) _ _ (ground (arith, ==_refl (watched o)))))
        refl λ h. same-Settles λ s. (refl, refl)

  play-Settles :
      (file : String) (args : List Text)
      → is_stage file ≡ true
      → Settles is_stage (is_each o) (file ∷ []) (guard_file o file (stamp o (need_play o args)))
  play-Settles file args st = guard_file-Settles o file st (stamp_play-Keeps o keeps args)

  output-Settles :
      (file cmd : String) (f : Text → Text)
      → is_stage file ≡ true
      → Settles is_stage (is_each o) (file ∷ []) (guard_file o file (make_output o cmd f))
  output-Settles file cmd f st = guard_file-Settles o file st (make_output-Keeps o keeps cmd f)

  pub start_chain-Settles : Settles is_stage (is_each o) chain_stages (start_chain o)
  unfolding start_chain
  start_chain-Settles =
      >>=-Settles
        (>>-Settles
          (>>-Settles
            (>>-Settles
              (>>-Settles
                (>>-Settles
                  (play-Settles "ag-pserver/prepare.stamp" (codes "prepare-controller" ∷ []) refl)
                  refl
                  (play-Settles "ag-chain-cosmos/prepare.stamp" (codes "prepare-cosmos" ∷ []) refl))
                refl
                (guard_file-Settles o "ag-chain-cosmos/genesis.stamp" refl
                  (stamp-Keeps o (make_genesis-Keeps o keeps))))
              refl (output-Settles "ag-chain-cosmos/data/peers.txt" "show-peers" (λ t. t) refl))
            refl (play-Settles "ag-chain-cosmos/install.stamp" (codes "install-cosmos" ∷ []) refl))
          refl
          (each-Settles "show-bootstrap-address"
            (ground (arith, ==_refl (own_command o "show-bootstrap-address")))))
        refl
        λ address.
          >>-Settles
            (>>-Settles
              (>>-Settles
                (play-Settles "ag-chain-cosmos/service.stamp" (service_words address) refl) refl
                (play-Settles "ag-chain-cosmos/start.stamp" (codes "start" ∷ []) refl))
              refl wait-Settles)
            refl
            (play-Settles "ag-chain-cosmos/validators.stamp" (codes "cosmos-validators" ∷ []) refl)

  start_controller-Settles : Settles is_stage (is_each o) controller_stages (start_controller o)
  unfolding start_controller
  start_controller-Settles =
      >>=-Settles
        (each-Settles "show-config" (ground (arith, ==_refl (own_command o "show-config")))) refl
        λ cfg.
          >>-Settles
            (>>-Settles
              (>>-Settles
                (>>-Settles
                  (>>-Settles
                    (>>-Settles {m = write_out (cfg ++ 10 ∷ [])} (same-Settles λ s. (refl, refl))
                      refl
                      (guard_file-Settles o "ag-pserver/data/cosmos-chain.json" refl
                        (same-Keeps λ s. refl)))
                    refl (output-Settles "ag-pserver/gci.txt" "show-gci" (λ t. t) refl))
                  refl
                  (output-Settles "ag-pserver/rpcaddrs.txt" "show-rpcaddrs"
                    (replace_all b',' (codes " ")) refl))
                refl
                (play-Settles "ag-pserver/install.stamp" (codes "install-controller" ∷ []) refl))
              refl (play-Settles "ag-pserver/solo-service.stamp" solo_words refl))
            refl
            (guard_file-Settles o "ag-pserver/solo-start.stamp" refl
              (stamp-Keeps o (start_solo-Keeps o keeps)))

  start_pserver-Settles :
      (ssl : Bool) (network password : Text)
      → Settles is_stage
          (is_each o)
          ("ag-pserver/service.stamp" ∷ "ag-pserver/start.stamp" ∷ [])
          (start_pserver o ssl network password)
  unfolding start_pserver
  start_pserver-Settles ssl network password =
      >>=-Settles
        (>>-Settles
          (>>-Settles
            (play-Settles "ag-pserver/service.stamp" (pserver_words ssl network password) refl) refl
            (play-Settles "ag-pserver/start.stamp"
              (codes "start" ∷ codes "-eservice=ag-pserver" ∷ []) refl))
          refl
          (each-Settles "show-rpcaddrs" (ground (arith, ==_refl (own_command o "show-rpcaddrs")))))
        refl
        λ addresses. same-Settles λ s. elim (Option-cases (first_host addresses)) [
          | inl e ↦ rw e (refl, refl)
          | inr (h, e) ↦ rw e (refl, refl)
        ]

  serve-Settles : (named : Text × Text) → Settles is_stage (is_each o) server_stages (serve o named)
  unfolding serve
  serve-Settles named =
      >>=-Settles
        (>>-Settles
          (guard_file-Settles o "ag-pserver/pubkeys.stamp" refl
            (stamp-Keeps o (ssh-Keeps o keeps (pubkeys_words o))))
          refl (same-Settles {m = exists_named o (named.0 ++ codes ".crt")} λ s. (refl, refl)))
        refl
        λ pub_found.
          >>=-Settles
            (same-Settles {m = exists_named o (named.0 ++ codes ".key")} λ s. (refl, refl)) refl
            λ key_found. start_pserver-Settles (pub_found && key_found) named.0 named.1

  -- all that comes behind the chain's name
  pub run_chain-Settles :
      (named : Text × Text)
      → Settles is_stage
          (is_each o)
          (chain_stages ++ controller_stages ++ server_stages)
          (start_chain o >> start_controller o >> serve o named)
  run_chain-Settles named =
      >>-Settles (>>-Settles start_chain-Settles refl start_controller-Settles) refl
        (serve-Settles named)
