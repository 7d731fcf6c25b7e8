-- ===== src/Setup/Bootstrap/Controller.antt =====
-- The end of `bootstrap-cosmos` of setup/main.js: the controller and the provisioning server, and the
-- whole command.
use Prim.Native.Char.{code}
use cosmic_swingset.Setup.World.{
  Outside, no_match, not_a_version_part, M, ◌>>=◌, ◌>>◌, pure, throw, write_out, inited,
  create_file, need_backtick, own_command, guard_file, make, stamp, await_status,
}
use cosmic_swingset.Setup.Commands.{need_play, status_playbook, ssh}
use cosmic_swingset.Setup.Bootstrap.{try_read, name_chain, make_output, start_chain}
use cosmic_swingset.Setup.Version.{span_digits, bump, bump_chain_version}
use cosmic_swingset.Setup.Shell.{shell_escape}
use cosmic_swingset.Base.Match.{strip, anywhere, replace_all}
use cosmic_swingset.Base.Text.{Text, codes}
use cosmic_swingset.Base.{
  nat_beq, if◌then◌else◌, any, ok, err, ◌==◌, nat_eq, string_eq, list_eq, ℕ, String, Bool, true,
  false, not, ◌&&◌, Option, none, some, List, [], ◌∷◌, ◌++◌,
}

-- `buf.match(/: new block on/) ? true : undefined`, where the playbook has run
abbrev pub found_block : Text → ℕ → Option Bool
found_block buf code =
    if not (nat_beq code 0)
    then none
    else elim (anywhere (strip (codes ": new block on")) buf) [ none ↦ none | some _ ↦ some true ]

-- `(,|$)` behind a port
abbrev pub port_ends : Text → Bool
port_ends [] = true
port_ends (c ∷ cs) = nat_beq c b','

-- `:\d+(,|$)`
abbrev pub port_follows : Text → Bool
port_follows t = elim (strip (codes ":") t) [
  | none ↦ false
  | some u ↦ let (port, rest) = span_digits u in elim port [ [] ↦ false | _ ∷ _ ↦ port_ends rest ]
]

-- `[^,]*` before it, as long as it can be
abbrev pub host_before : Text → Option Text
host_before [] = none
host_before (c ∷ cs) =
    let later = host_before cs in
    if nat_beq c b',' then none else elim later [
      | some host ↦ some (c ∷ host)
      | none ↦ if port_follows (c ∷ cs) then some [] else none
    ]

-- `rpcAddrs.match(/^([^,]+):\d+(,|$)/)`, its `match[1]`
abbrev pub first_host : Text → Option Text
first_host t = elim (host_before t) [ none ↦ none | some [] ↦ none | some (c ∷ cs) ↦ some (c ∷ cs) ]

-- the mount point of the provisioning server
abbrev pub mount_point : Text → Text
mount_point [] = []
mount_point (c ∷ cs) = codes " -m " ++ shell_escape (codes "/provision-" ++ c ∷ cs)

-- `pserverFlags`, for the key and the certificate of the network
abbrev pub ssl_flags : Text → Text
ssl_flags network =
    32
    ∷ shell_escape (
        codes "--listen=ssl:443:privateKey=.ag-pserver/"
        ++ (network ++ (codes ".key:certKey=.ag-pserver/" ++ (network ++ codes ".crt"))))

-- `execline`
abbrev pub exec_line : Bool → Text → Text → Text
exec_line ssl network password =
    codes "/usr/src/app/ve3/bin/ag-pserver start"
    ++ ((if ssl then ssl_flags network else [])
        ++ (mount_point password ++ codes " -c http://localhost:8000/vat"))

-- `installFlags`
abbrev pub install_flags : Bool → List Text
install_flags ssl =
    if ssl then codes "-eserviceLines=AmbientCapabilities=CAP_NET_BIND_SERVICE" ∷ [] else []

-- `pserverPassword && ...`
abbrev pub mount_path : Text → Text
mount_path [] = []
mount_path (c ∷ cs) = codes "/provision-" ++ c ∷ cs

-- `pserverUrl`
abbrev pub pserver_url : Bool → Text → Text → Text
pserver_url ssl host password =
    (if ssl then codes "https://" ++ host else codes "http://" ++ (host ++ codes ":8001"))
    ++ mount_path password

abbrev pub controller_words : String → List Text
controller_words book =
    codes book ∷ codes "-eservice=ag-controller" ∷ codes "-euser=ag-pserver" ∷ []

-- the installation of the controller's service
abbrev pub solo_words : List Text
solo_words =
    controller_words "install"
    ++ (codes "-echdir=/home/ag-pserver/controller"
        ∷ codes "-eexecline=\"/usr/local/bin/ag-solo start --role=controller\""
        ∷ [])

-- the installation of the provisioning server's service
abbrev pub pserver_words : Bool → Text → Text → List Text
pserver_words ssl network password =
    codes "install"
    ∷ codes "-eservice=ag-pserver"
    ∷ (codes "-eexecline=" ++ shell_escape (exec_line ssl network password))
    ∷ install_flags ssl

module _ (o : Outside) where
  -- the controller is started, and has found a block
  unfoldable pub start_solo : M (Unit {0})
  start_solo =
      need_play o (controller_words "start")
      >> (await_status o
            (status_playbook o (codes "ag-pserver") (codes "node0") (codes "ag-controller"))
            found_block
          >>= λ found. pure tt)

  -- the controller: from its files to its start
  unfoldable pub start_controller : M (Unit {0})
  unfolding start_solo
  start_controller = need_backtick o (own_command o "show-config") >>= λ cfg.
      write_out (cfg ++ 10 ∷ [])
      >> guard_file o "ag-pserver/data/cosmos-chain.json" (make o cfg)
      >> guard_file o "ag-pserver/gci.txt" (make_output o "show-gci" (λ t. t))
      >> guard_file o "ag-pserver/rpcaddrs.txt"
          (make_output o "show-rpcaddrs" (replace_all b',' (codes " ")))
      >> guard_file o "ag-pserver/install.stamp"
          (stamp o (need_play o (codes "install-controller" ∷ [])))
      >> guard_file o "ag-pserver/solo-service.stamp" (stamp o (need_play o solo_words))
      >> guard_file o "ag-pserver/solo-start.stamp" (stamp o start_solo)

  -- `add-pubkeys` on the provisioner
  abbrev pub pubkeys_words : List Text
  pubkeys_words =
      codes "ag-pserver"
      ∷ codes "sudo"
      ∷ codes "-u"
      ∷ codes "ag-pserver"
      ∷ codes "/usr/src/app/ve3/bin/ag-pserver"
      ∷ codes "add-pubkeys"
      ∷ codes "-c"
      ∷ codes "http://localhost:8000/vat"
      ∷ []

  -- the provisioning server, and the URL that is told of it
  unfoldable pub start_pserver : Bool → Text → Text → M Text
  start_pserver ssl network password =
      guard_file o "ag-pserver/service.stamp"
        (stamp o (need_play o (pserver_words ssl network password)))
      >> guard_file o "ag-pserver/start.stamp"
          (stamp o (need_play o (codes "start" ∷ codes "-eservice=ag-pserver" ∷ [])))
      >> need_backtick o (own_command o "show-rpcaddrs")
      >>= λ addresses. elim (first_host addresses) [
        | none ↦ throw no_match
        | some host ↦ pure (pserver_url ssl host password)
      ]

  -- `exists` of a name that is not a literal
  abbrev pub exists_named : Text → M Bool
  exists_named name s = (ok (any (λ e. codes e.0 == name) s.files), s)

  -- `case 'bump-chain-version'`, for the part of the version that is given
  pub bump_version : Text → M (Unit {0})
  bump_version part = inited >> try_read "chain-version.txt" >>= λ version.
      elim (bump_chain_version version (some part) none) [
        | err e ↦ throw not_a_version_part
        | ok v ↦ write_out (v ++ 10 ∷ []) >> create_file o "chain-version.txt" v
      ]

  -- `if (subOpts.bump)`
  abbrev pub bump_if : Text → M (Unit {0})
  bump_if [] = pure tt
  bump_if (c ∷ cs) = bump_version (c ∷ cs)

  -- from the controller's start to the end
  unfoldable pub serve : Text × Text → M Text
  unfolding start_pserver
  serve named =
      guard_file o "ag-pserver/pubkeys.stamp" (stamp o (ssh o pubkeys_words))
      >> exists_named (named.0 ++ codes ".crt")
      >>= λ pub_found. exists_named (named.0 ++ codes ".key") >>= λ key_found.
          start_pserver (pub_found && key_found) named.0 named.1

  -- `case 'bootstrap-cosmos'`, with the value of `--bump`; it gives the URL that it tells
  unfoldable pub bootstrap_cosmos : Text → M Text
  unfolding bump_version start_controller serve
  bootstrap_cosmos bump = inited >> bump_if bump >> name_chain o >>= λ named.
      start_chain o >> start_controller >> serve named
