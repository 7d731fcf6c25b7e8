-- ===== src/Setup/Commands.antt =====
-- Commands of setup/main.js that other commands run: `play`, `provision`, `wait-for-any`, `ssh`,
-- `show-chain-name`, `show-bootstrap-address`, `rolling-restart` and `destroy`.
use Prim.Native.Char.{code}
use cosmic_swingset.Setup.World.{
  ask, Host, Outside, unexpected_exit, needs, not_a_word, user_request, bad_json, M, ◌>>=◌, ◌>>◌,
  pure, throw, unless, exists, trim_read_file, write_out, inited, perform_command, do_run,
  need_do_run, need_backtick, await_status, playbook,
}
use cosmic_swingset.Setup.Shell.{is_space, shell_escape}
use cosmic_swingset.Setup.Version.{is_digit, span_digits}
use cosmic_swingset.Base.Match.{strip, anywhere, within_line, split}
use cosmic_swingset.Base.Text.{Text, codes, sort_texts}
use cosmic_swingset.Base.{
  leb, nat_beq, if◌then◌else◌, any, ◌==◌, nat_eq, string_eq, list_eq, ℕ, Bool, false, not, ◌&&◌,
  ◌||◌, Option, none, some, List, [], ◌∷◌, ◌++◌, map,
}
use cosmic_swingset.Base.Dict.{Dict, insert}

-- `\w`, and `[-\w]`
abbrev pub is_word_char : ℕ → Bool
is_word_char c =
    is_digit c || (leb b'a' c && leb c b'z') || (leb b'A' c && leb c b'Z') || nat_beq c b'_'

-- `pb.match(/^\w[-\w]*$/)`
abbrev pub is_word : Text → Bool
is_word [] = false
is_word (c ∷ cs) = is_word_char c && not (any (λ d. not (is_word_char d || nat_beq d b'-')) cs)

-- `height=([1-9]\d*)`
abbrev pub height : Text → Option Text
height t = elim (strip (codes "height=") t) [
  | none ↦ none
  | some [] ↦ none
  | some (c ∷ cs) ↦
      if is_digit c && not (nat_beq c b'0') then some (c ∷ (span_digits cs).0) else none
]

abbrev pub with_state : Text → Option Text
with_state t = elim (strip (codes "module=state") t) [ none ↦ none | some u ↦ within_line height u ]

abbrev pub with_commit : Text → Option Text
with_commit t = elim (strip (codes "Committed state") t) [
  | none ↦ none
  | some u ↦ within_line with_state u
]

-- `buf.match(/Committed state.*module=state.*height=([1-9]\d*)/)`, its `match[1]`
abbrev pub committed_height : Text → ℕ → Option Text
committed_height buf code = anywhere with_commit buf

-- `line.match(/^\s*(node\d+)/)`, its `match[1]`
abbrev pub node_name : Text → Option Text
node_name [] = none
node_name (c ∷ cs) =
    let later = node_name cs in
    if is_space c then later else elim (strip (codes "node") (c ∷ cs)) [
      | none ↦ none
      | some rest ↦ elim (span_digits rest).0 [ [] ↦ none | d ∷ ds ↦ some (codes "node" ++ d ∷ ds) ]
    ]

-- `a || b`
abbrev pub or_else : Option Text → Text → Text
or_else none t = t
or_else (some s) t = s

-- the `-i` option, where there is a key
abbrev pub key_option : Option Text → List Text
key_option none = []
key_option (some key) = (codes "-i" ++ key) ∷ []

-- one line after the other, `nodeMap[match[1]] = true`
abbrev pub add_nodes : List Text → Dict Text (Unit {0}) → Dict Text (Unit {0})
add_nodes [] nodes = nodes
add_nodes (line ∷ lines) nodes = elim (node_name line) [
  | none ↦ add_nodes lines nodes
  | some name ↦ add_nodes lines (insert name tt nodes)
]

module _ (o : Outside) where
  -- `case 'play'`: the exit code of the playbook
  unfoldable pub play : List Text → M ℕ
  play [] = throw (needs "playbook name")
  play ([] ∷ args) = throw (needs "playbook name")
  play ((c ∷ cs) ∷ args) =
      if is_word (c ∷ cs)
      then inited >> do_run o (playbook o (c ∷ cs) args)
      else throw (not_a_word (c ∷ cs))

  -- `needReMain(['play', ...args])`
  unfoldable pub need_play : List Text → M (Unit {0})
  unfolding play
  need_play args =
      play args >>= λ code. if nat_beq code 0 then pure tt else throw (unexpected_exit code)

  -- `case 'provision'`
  unfoldable pub provision : List Text → M (Unit {0})
  provision args = inited >> exists ".terraform" >>= λ found.
      unless found (need_do_run o (codes "terraform" ∷ codes "init" ∷ []))
      >> need_do_run o (codes "terraform" ∷ codes "apply" ∷ args)

  -- the status playbook of `waitForStatus`
  abbrev pub status_playbook : Text → Text → Text → List Text
  status_playbook user host service =
      playbook o (codes "status")
        ((codes "-euser=" ++ user) ∷ (codes "-l" ++ host) ∷ (codes "-eservice=" ++ service) ∷ [])

  -- `case 'wait-for-any'`, with the height that it reports
  unfoldable pub wait_for_any : Text → M Text
  wait_for_any host =
      inited
      >> await_status o
          (status_playbook (codes "ag-chain-cosmos") (named host) (codes "ag-chain-cosmos"))
          committed_height
    where
      named : Text → Text
      named [] = codes "ag-chain-cosmos"
      named (c ∷ cs) = c ∷ cs

  -- `case 'show-chain-name'`
  pub show_chain_name : M (Unit {0})
  show_chain_name = inited >> trim_read_file "ag-chain-cosmos/chain-name.txt" >>= write_out

  -- `case 'show-bootstrap-address'`
  pub show_bootstrap_address : M (Unit {0})
  show_bootstrap_address =
      inited >> trim_read_file "ag-pserver/data/node0/boot-address.txt" >>= write_out

  -- the end of `case 'ssh'`, with what is known of the host
  abbrev pub ssh_words : Text → List Text → Host → List Text
  ssh_words host args h =
      codes "ssh"
      ∷ codes "-oUserKnownHostsFile=provision/ssh_known_hosts"
      ∷ (key_option h.ansible_ssh_private_key_file
          ++ ((or_else h.ansible_ssh_user (codes "root") ++ (b'@' ∷ or_else h.ansible_host host))
              ∷ args))

  -- `case 'ssh'`
  unfoldable pub ssh : List Text → M (Unit {0})
  ssh [] = throw (needs "host")
  ssh ([] ∷ args) = throw (needs "host")
  ssh ((c ∷ cs) ∷ args) =
      inited
      >> need_backtick o (codes "ansible-inventory --host=" ++ shell_escape (c ∷ cs))
      >>= λ json. connect (o.parse_host json)
    where
      connect : Option Host → M (Unit {0})
      connect none = throw bad_json
      connect (some h) = need_do_run o (ssh_words (c ∷ cs) args h)

  -- the loop over `hosts`
  pub expand_hosts : List Text → Dict Text (Unit {0}) → M (Dict Text (Unit {0}))
  expand_hosts [] nodes = pure nodes
  expand_hosts (host ∷ hosts) nodes =
      need_backtick o (codes "ansible --list-hosts " ++ shell_escape host) >>= λ lines.
      expand_hosts hosts (add_nodes (split 10 lines) nodes)

  -- the loop over `nodes`
  pub restart_nodes : List Text → M (Unit {0})
  restart_nodes [] = pure tt
  restart_nodes (node ∷ nodes) =
      need_do_run o (playbook o (codes "restart") (codes "-l" ∷ node ∷ []))
      >> need_do_run o (o.progname ∷ codes "wait-for-any" ∷ node ∷ [])
      >> restart_nodes nodes

  -- `case 'rolling-restart'`
  pub rolling_restart : List Text → M (Unit {0})
  unfolding expand_hosts restart_nodes
  rolling_restart hosts = inited >> expand_hosts (all_of hosts) [] >>= λ nodes.
      restart (sort_texts (map (λ n. n.0) nodes))
    where
      all_of : List Text → List Text
      all_of [] = codes "all" ∷ []
      all_of (h ∷ hs) = h ∷ hs

      restart : List Text → M (Unit {0})
      restart [] = throw (needs "one node")
      restart (n ∷ ns) = restart_nodes (n ∷ ns)

  -- `case 'destroy'`, for the directory `SETUP_HOME`
  pub destroy : M (Unit {0})
  destroy = exists ".terraform" >>= λ found.
      (if found then need_do_run o (codes "terraform" ∷ codes "destroy" ∷ []) else confirm)
      >> need_do_run o (
          codes "rm"
          ∷ codes "-rf"
          ∷ codes "provision"
          ∷ codes "ag-pserver"
          ∷ codes "ag-chain-cosmos"
          ∷ [])
    where
      confirm : M (Unit {0})
      confirm = perform_command o (ask o.setup_home) >>= λ r.
          if r.1 == codes "yes" then pure tt else throw user_request
