-- ===== src/Setup/Bootstrap/Settled.antt =====
-- `bootstrap-cosmos` of setup/main.js, run again on what it has made.
use mathlib.Core.Path.{subst}
use cosmic_swingset.Setup.World.{
  spawn, Outside, State, Stop, M, after, ◌>>◌, pure, trim_right, inited, guard_file, make,
}
use cosmic_swingset.Setup.World.Settles.{Has, IsOk, Keeps, started_once, after-quiet}
use cosmic_swingset.Setup.World.Guarded.{IsKept, guard_file-found}
use cosmic_swingset.Setup.Bootstrap.{
  rm_state, read_or, chain_name_of, rename_chain, name_with, read_name, name_chain, start_chain,
}
use cosmic_swingset.Setup.Bootstrap.Controller.{start_controller, bump_if, serve, bootstrap_cosmos}
use cosmic_swingset.Setup.Bootstrap.Stages.{
  chain_stages, controller_stages, server_stages, is_param, chain_name_file, is_stage, is_each,
  KeepsStages,
}
use cosmic_swingset.Setup.Bootstrap.Phases.{run_chain-Settles}
use cosmic_swingset.Setup.Bootstrap.Named.{IsNamed, rename_chain-IsNamed}
use cosmic_swingset.Base.Dict.{lookup, contains}
use cosmic_swingset.Base.Text.{Text, codes}
use cosmic_swingset.Files.{Disk}
use cosmic_swingset.Base.{
  Bool-cases, Option-cases, All, Result, ok, err, ==_refl, nat_eq, string_eq, list_eq, String, ◌≡◌,
  refl, sym, ap, ◌∙◌, inl, inr, ◌&&◌, none, some, List, [], ◌++◌, arith,
}

-- a part that leaves the state alone, and then more
after-same :
    {A B : Type 0} (s : State) (r : Result Stop A × State) (k : A → M B)
    → r.1 ≡ s
    → ((a : A) → (k a s).1 ≡ s)
    → (after r k).1 ≡ s
after-same s (ok a, t) k e h = subst (λ u. (k a u).1 ≡ s) (sym e) (h a)
after-same s (err x, t) k e h = e

after-reaches :
    {A B : Type 0} (P : State → Type 0) (s : State) (r : Result Stop A × State) (k : A → M B)
    → r.1 ≡ s
    → ((a : A) → IsOk (k a s).0 → P (k a s).1)
    → IsOk (after r k).0
    → P (after r k).1
after-reaches P s (ok a, t) k e h = subst (λ u. IsOk (k a u).0 → P (k a u).1) (sym e) (h a)
after-reaches P s (err x, t) k e h = λ o. absurd o

after-pure :
    {A B : Type 0} (P : State → Type 0) (r : Result Stop A × State) (b : B)
    → (IsOk r.0 → P r.1)
    → IsOk (after r (λ _. pure b)).0
    → P (after r (λ _. pure b)).1
after-pure P (ok a, t) b h o = h tt
after-pure P (err x, t) b h o = absurd o

read_or-same : (default : Text) (f : String) (s : State) → (read_or default f s).1 ≡ s
read_or-same default f s = elim (Bool-cases (contains f s.files)) [
  | inl e ↦ rw e refl
  | inr e ↦ rw e refl
]

inited-same : (s : State) → (inited s).1 ≡ s
unfolding inited
inited-same s = elim (Bool-cases (contains "ansible.cfg" s.files && contains "vars.tf" s.files)) [
  | inl e ↦ rw e refl
  | inr e ↦ rw e refl
]

module _ (o : Outside) (keeps : KeepsStages o is_stage)
    (removes : (d : Disk)
      → (o.perform (spawn rm_state) d).code ≡ 0
      → lookup chain_name_file (o.perform (spawn rm_state) d).disk ≡ none)
    (spares : IsKept o is_param (spawn rm_state)) where
  name_with-IsNamed :
      (network version : Text) (s : State)
      → lookup "network.txt" s.files ≡ some network
      → lookup "chain-version.txt" s.files ≡ some version
      → IsOk (name_with o (trim_right network) (trim_right version) s).0
      → IsNamed (name_with o (trim_right network) (trim_right version) s).1
  unfolding name_with
  name_with-IsNamed network version s n v =
      after-reaches IsNamed s (read_or [] "pserver-password.txt" s) _
        (read_or-same [] "pserver-password.txt" s)
        λ password.
          after-pure IsNamed
            (rename_chain o (chain_name_of (trim_right network) (trim_right version)) s)
            (trim_right network, password)
            (rename_chain-IsNamed o keeps removes spares network version s n v)

  read_name-IsNamed : (s : State) → IsOk (read_name o s).0 → IsNamed (read_name o s).1
  unfolding read_name
  read_name-IsNamed s = elim (Option-cases (lookup "network.txt" s.files)) [
    | inl e ↦ rw e (λ h. absurd h)
    | inr (network, n) ↦ elim (Option-cases (lookup "chain-version.txt" s.files)) [
      | inl e ↦ rw (n, e) (λ h. absurd h)
      | inr (version, v) ↦ rw (n, v) (name_with-IsNamed network version s n v)
    ]
  ]

  name_chain-IsNamed : (s : State) → IsOk (name_chain o s).0 → IsNamed (name_chain o s).1
  unfolding name_chain
  name_chain-IsNamed s = from_guard (guard_file o "chain-version.txt" (make o (codes "0.0.0")) s)
    where
      from_guard :
          (r : Result Stop (Unit {0}) × State)
          → let end = after r (λ _. read_name o) in IsOk end.0 → IsNamed end.1
      from_guard (ok a, t) h = read_name-IsNamed t h
      from_guard (err e, t) h = absurd h

  -- where the name is right, nothing of this changes anything
  rename_chain-same :
      (s : State) (n : IsNamed s)
      → let name = chain_name_of (trim_right n.network) (trim_right n.version) in
        (rename_chain o name s).1 ≡ s
  unfolding rename_chain
  rename_chain-same s n =
      let name = chain_name_of (trim_right n.network) (trim_right n.version) in
      rw (n.name_there, n.matches, ==_refl name)
        (ap (λ r. r.1)
          (guard_file-found o chain_name_file (make o name) s λ e. ground (arith, n.name_there, e)))

  read_name-same : (s : State) → IsNamed s → (read_name o s).1 ≡ s
  unfolding read_name name_with
  read_name-same s n =
      rw (n.network_there, n.version_there)
        (after-same s (read_or [] "pserver-password.txt" s) _
          (read_or-same [] "pserver-password.txt" s)
          λ password.
            after-same s
              (rename_chain o (chain_name_of (trim_right n.network) (trim_right n.version)) s)
              (λ _. pure (trim_right n.network, password)) (rename_chain-same s n) (λ a. refl))

  name_chain-same : (s : State) → IsNamed s → (name_chain o s).1 ≡ s
  unfolding name_chain
  name_chain-same s n =
      rw
        (guard_file-found o "chain-version.txt" (make o (codes "0.0.0")) s
          λ e. ground (arith, n.version_there, e))
        (read_name-same s n)

  -- the first part of the command
  start : Text → M (Text × Text)
  start bump = inited >> bump_if o bump >> name_chain o

  start-same : (s : State) → IsNamed s → (start [] s).1 ≡ s
  unfolding start
  start-same s n =
      after-same s ((inited >> bump_if o []) s) (λ _. name_chain o)
        (after-same s (inited s) (λ _. bump_if o []) (inited-same s) (λ a. refl))
        (λ a. name_chain-same s n)

  start-IsNamed : (bump : Text) (s : State) → IsOk (start bump s).0 → IsNamed (start bump s).1
  unfolding start
  start-IsNamed bump s = from_bumped ((inited >> bump_if o bump) s)
    where
      from_bumped :
          (r : Result Stop (Unit {0}) × State)
          → let end = after r (λ _. name_chain o) in IsOk end.0 → IsNamed end.1
      from_bumped (ok a, t) h = name_chain-IsNamed t h
      from_bumped (err e, t) h = absurd h

  all_stages : List String
  all_stages = chain_stages ++ controller_stages ++ server_stages

  -- what a run that returns leaves
  IsDone : State → Type 0
  unfolding all_stages
  IsDone s = IsNamed s × All (Has s) all_stages

  Keeps-IsNamed :
      {A : Type 0} {m : M A} (s : State) → Keeps is_stage m → IsNamed s → IsNamed (m s).1
  Keeps-IsNamed s kept n = record {
    network = n.network;
    version = n.version;
    name = n.name;
    network_there =
        kept.keeps s "network.txt" refl (λ e. ground (arith, n.network_there, e)) ∙ n.network_there;
    version_there =
        kept.keeps s "chain-version.txt" refl (λ e. ground (arith, n.version_there, e))
        ∙ n.version_there;
    name_there =
        kept.keeps s chain_name_file refl (λ e. ground (arith, n.name_there, e)) ∙ n.name_there;
    matches = n.matches;
  }

  bootstrap_cosmos-IsDone :
      (bump : Text) (s : State)
      → IsOk (bootstrap_cosmos o bump s).0
      → IsDone (bootstrap_cosmos o bump s).1
  unfolding bootstrap_cosmos start IsDone
  bootstrap_cosmos-IsDone bump s = from_start (start bump s) (start-IsNamed bump s)
    where
      from_start :
          (r : Result Stop (Text × Text) × State)
          → (IsOk r.0 → IsNamed r.1)
          → let end = after r (λ named. start_chain o >> start_controller o >> serve o named) in
            IsOk end.0 → IsDone end.1
      from_start (ok named, t) n h =
          let settles = run_chain-Settles o keeps named in
          (Keeps-IsNamed t settles.kept (n tt), settles.makes t h)
      from_start (err e, t) n h = absurd h

  bootstrap_cosmos-quiet :
      (s : State)
      → IsDone s
      → started_once (is_each o) (bootstrap_cosmos o [] s).1 ≡ started_once (is_each o) s
  unfolding bootstrap_cosmos start IsDone
  bootstrap_cosmos-quiet s done =
      after-quiet [] all_stages (λ named. start_chain o >> start_controller o >> serve o named) s
        (start [] s) (ap (started_once (is_each o)) (start-same s done.0))
        (subst (λ u. All (Has u) all_stages) (sym (start-same s done.0)) done.1)
        (run_chain-Settles o keeps)

  -- Where `bootstrap-cosmos` has returned, with `--bump` or without, running it again without `--bump`
  -- starts none of the playbooks and other programs that make a stage, whatever it comes to: of what
  -- it starts, all but the commands that tell the state of the chain had been started before. The
  -- programs may do anything, but that none changes a guarded file that is there, that `rm -rf` removes
  -- the file of the chain's name where it succeeds, and that it spares the two files that the name is
  -- made from.
  pub bootstrap_cosmos-idempotent :
      (bump : Text) (s : State)
      → IsOk (bootstrap_cosmos o bump s).0
      → let t = (bootstrap_cosmos o bump s).1 in
        started_once (is_each o) (bootstrap_cosmos o [] t).1 ≡ started_once (is_each o) t
  bootstrap_cosmos-idempotent bump s h =
      bootstrap_cosmos-quiet (bootstrap_cosmos o bump s).1 (bootstrap_cosmos-IsDone bump s h)
