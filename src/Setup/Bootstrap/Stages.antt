-- ===== src/Setup/Bootstrap/Stages.antt =====
-- The files that `bootstrap-cosmos` of setup/main.js guards, what it starts each time, and what each
-- part of it keeps and settles.
use cosmic_swingset.Setup.World.{
  Command, spawn, shell, poll, Outside, M, inited, need_do_run, need_backtick, own_command, stamp,
}
use cosmic_swingset.Setup.World.Settles.{Keeps, >>=-Keeps}
use cosmic_swingset.Setup.World.Guarded.{
  same-Keeps, IsKept, perform_command-Keeps, await_status-Keeps,
}
use cosmic_swingset.Setup.Commands.{is_word, play, need_play, status_playbook, ssh}
use cosmic_swingset.Setup.Bootstrap.{rm_state, try_play, stop_chain, make_genesis, make_output}
use cosmic_swingset.Setup.Bootstrap.Controller.{start_solo}
use cosmic_swingset.Base.Text.{Text, codes}
use cosmic_swingset.Base.{
  Bool-cases, Option-cases, any, ◌==◌, nat_eq, string_eq, list_eq, String, ◌≡◌, refl, inl, inr,
  Bool, true, false, ◌&&◌, ◌||◌, List, [], ◌∷◌, arith,
}

abbrev pub chain_stages : List String
chain_stages =
    "ag-pserver/prepare.stamp" ∷ "ag-chain-cosmos/prepare.stamp" ∷ "ag-chain-cosmos/genesis.stamp"
    ∷ "ag-chain-cosmos/data/peers.txt" ∷ "ag-chain-cosmos/install.stamp"
    ∷ "ag-chain-cosmos/service.stamp" ∷ "ag-chain-cosmos/start.stamp"
    ∷ "ag-chain-cosmos/validators.stamp" ∷ []

abbrev pub controller_stages : List String
controller_stages =
    "ag-pserver/data/cosmos-chain.json" ∷ "ag-pserver/gci.txt" ∷ "ag-pserver/rpcaddrs.txt"
    ∷ "ag-pserver/install.stamp" ∷ "ag-pserver/solo-service.stamp" ∷ "ag-pserver/solo-start.stamp"
    ∷ []

abbrev pub server_stages : List String
server_stages =
    "ag-pserver/pubkeys.stamp" ∷ "ag-pserver/service.stamp" ∷ "ag-pserver/start.stamp" ∷ []

-- the files that the chain's name is made from
abbrev pub is_param : String → Bool
is_param f = any (λ g. g == f) ("network.txt" ∷ "chain-version.txt" ∷ [])

abbrev pub chain_name_file : String
chain_name_file = "ag-chain-cosmos/chain-name.txt"

abbrev pub is_stage : String → Bool
is_stage f =
    is_param f
    || chain_name_file == f
    || any (λ g. g == f) chain_stages
    || any (λ g. g == f) controller_stages
    || any (λ g. g == f) server_stages

-- `rm -rf` of anything
abbrev pub is_removal : Command → Bool
is_removal (spawn (word ∷ flag ∷ words)) = word == codes "rm" && flag == codes "-rf"
is_removal _ = false

and_false : (b : Bool) → (b && false) ≡ false
and_false true = refl
and_false false = refl

module _ (o : Outside) where
  -- what `bootstrap-cosmos` starts each time: what tells the state of the chain
  abbrev pub is_each : Command → Bool
  is_each (shell line) =
      line == own_command o "show-bootstrap-address"
      || line == own_command o "show-config"
      || line == own_command o "show-rpcaddrs"
  is_each (poll words) =
      words
      == status_playbook o (codes "ag-chain-cosmos") (codes "ag-chain-cosmos")
          (codes "ag-chain-cosmos")
  is_each _ = false

  -- Of the programs, none but `rm -rf` changes a stage that is there.
  abbrev pub KeepsStages : (String → Bool) → Type 0
  KeepsStages p = (c : Command) → is_removal c ≡ false → IsKept o p c

  module _ {p : String → Bool} where
    pub need_do_run-Keeps :
        (words : List Text) → IsKept o p (spawn words) → Keeps p (need_do_run o words)
    need_do_run-Keeps words h =
        >>=-Keeps _
          (>>=-Keeps _ (perform_command-Keeps o (spawn words) h) (λ r. same-Keeps λ s. refl))
          λ code. same-Keeps λ s. ground arith

    pub need_backtick-Keeps :
        (line : Text) → IsKept o p (shell line) → Keeps p (need_backtick o line)
    need_backtick-Keeps line h =
        >>=-Keeps _ (perform_command-Keeps o (shell line) h) λ r. same-Keeps λ s. ground arith

    pub inited-Keeps : Keeps p inited
    unfolding inited
    inited-Keeps = same-Keeps λ s. ground arith

    pub stamp-Keeps : {m : M (Unit {0})} → Keeps p m → Keeps p (stamp o m)
    stamp-Keeps h = >>=-Keeps _ h λ a. same-Keeps λ s. refl

  module _ {p : String → Bool} (keeps : KeepsStages p) where
    pub play-Keeps : (args : List Text) → Keeps p (play o args)
    unfolding play
    play-Keeps [] = same-Keeps λ s. refl
    play-Keeps ([] ∷ args) = same-Keeps λ s. refl
    play-Keeps ((c ∷ cs) ∷ args) = elim (Bool-cases (is_word (c ∷ cs))) [
      | inl e ↦
          rw (e, play)
            (>>=-Keeps _ inited-Keeps
              λ a. >>=-Keeps _ (perform_command-Keeps o _ (keeps _ refl)) λ r. same-Keeps λ s. refl)
      | inr e ↦ rw (e, play) (same-Keeps λ s. refl)
    ]

    pub need_play-Keeps : (args : List Text) → Keeps p (need_play o args)
    unfolding need_play
    need_play-Keeps args = >>=-Keeps _ (play-Keeps args) λ code. same-Keeps λ s. ground arith

    pub shell-Keeps : (line : Text) → Keeps p (need_backtick o line)
    shell-Keeps line = need_backtick-Keeps line (keeps (shell line) refl)

    pub stamp_play-Keeps : (args : List Text) → Keeps p (stamp o (need_play o args))
    stamp_play-Keeps args = stamp-Keeps (need_play-Keeps args)

    pub make_output-Keeps : (cmd : String) (f : Text → Text) → Keeps p (make_output o cmd f)
    make_output-Keeps cmd f =
        >>=-Keeps _ (shell-Keeps (own_command o cmd)) λ t. same-Keeps λ s. refl

    pub make_genesis-Keeps : Keeps p (make_genesis o)
    unfolding make_genesis
    make_genesis-Keeps =
        >>=-Keeps _ (need_play-Keeps _) λ a. need_do_run-Keeps _ (keeps _ (and_false _))

    pub start_solo-Keeps : Keeps p (start_solo o)
    unfolding start_solo
    start_solo-Keeps =
        >>=-Keeps _ (need_play-Keeps _)
          λ a. >>=-Keeps _ (await_status-Keeps o _ _) λ b. same-Keeps λ s. refl

    pub ssh-Keeps : (args : List Text) → Keeps p (ssh o args)
    unfolding ssh
    ssh-Keeps [] = same-Keeps λ s. refl
    ssh-Keeps ([] ∷ args) = same-Keeps λ s. refl
    ssh-Keeps ((c ∷ cs) ∷ args) = >>=-Keeps _ (>>=-Keeps _ inited-Keeps λ a. shell-Keeps _) λ json.
        elim (Option-cases (o.parse_host json)) [
          | inl e ↦ rw e (same-Keeps λ s. refl)
          | inr (h, e) ↦ rw e (need_do_run-Keeps _ (keeps _ refl))
        ]

    pub stop_chain-Keeps : IsKept o p (spawn rm_state) → Keeps p (stop_chain o)
    unfolding stop_chain
    stop_chain-Keeps removes =
        >>=-Keeps _
          (>>=-Keeps _ (>>=-Keeps _ (try_play-Keeps _) λ a. try_play-Keeps _) λ a. try_play-Keeps _)
          λ a. need_do_run-Keeps rm_state removes
      where
        try_play-Keeps : (args : List Text) → Keeps p (try_play o args)
        try_play-Keeps args = >>=-Keeps _ (play-Keeps args) λ code. same-Keeps λ s. refl
