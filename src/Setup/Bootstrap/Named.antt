-- ===== src/Setup/Bootstrap/Named.antt =====
-- The chain's name in `bootstrap-cosmos` of setup/main.js: when the file of it is right.
use mathlib.Core.Option
use cosmic_swingset.Setup.World.{
  spawn, Ran, Outside, State, Stop, aborted_exit, after, ◌>>◌, pure, throw, unless, before_trimmed,
  trim_right, create_file, perform_command, need_do_run, finish_guard, guard_file, make,
}
use cosmic_swingset.Setup.World.Settles.{Has, IsOk, Keeps, >>=-Keeps}
use cosmic_swingset.Setup.World.Guarded.{
  same-Keeps, IsKept, guard_file-absent, guard_file-found, guard_file-Keeps,
}
use cosmic_swingset.Setup.Bootstrap.{
  rm_state, try_read, chain_name_of, is_named, stop_chain, rename_chain,
}
use cosmic_swingset.Setup.Bootstrap.Stages.{
  is_param, chain_name_file, is_stage, KeepsStages, stop_chain-Keeps,
}
use cosmic_swingset.Setup.Shell.{is_space}
use cosmic_swingset.Base.Dict.{lookup, lookup-insert_self, contains_iff_lookup}
use cosmic_swingset.Base.Text.{Text}
use cosmic_swingset.Files.{Disk}
use cosmic_swingset.Base.{
  nat_beq, if◌then◌else◌, Bool-cases, Result, ok, err, ◌==◌, ==_iff, nat_eq, string_eq, list_eq, ℕ,
  ◌≡◌, refl, ap, ◌∙◌, ◌⊎◌, inl, inr, Bool, true, false, Option, none, some, [], ◌∷◌, arith,
}

trim_right-cons : (c d : ℕ) (t ds : Text) → trim_right t ≡ d ∷ ds → trim_right (c ∷ t) ≡ c ∷ d ∷ ds
trim_right-cons c d t ds e = rw e refl

trim_right-dash : (t : Text) → trim_right (b'-' ∷ t) ≡ b'-' ∷ trim_right t
trim_right-dash t = elim (List-cases (trim_right t)) [
  | inl e ↦ rw e refl
  | inr (d, ds, e) ↦ rw e refl
]
  where
    List-cases : (xs : Text) → (xs ≡ []) ⊎ ((x : ℕ) × (ys : Text) × (xs ≡ x ∷ ys))
    List-cases [] = inl refl
    List-cases (x ∷ xs) = inr (x, xs, refl)

trim_right-chain_name_of :
    (network version : Text)
    → trim_right (chain_name_of network version) ≡ chain_name_of network (trim_right version)
trim_right-chain_name_of [] version = trim_right-dash version
trim_right-chain_name_of (c ∷ []) version =
    trim_right-cons c b'-' (b'-' ∷ version) _ (trim_right-dash version)
trim_right-chain_name_of (c ∷ d ∷ cs) version =
    trim_right-cons c d (chain_name_of (d ∷ cs) version) _
      (trim_right-chain_name_of (d ∷ cs) version)

trim_right-trim_right : (t : Text) → trim_right (trim_right t) ≡ trim_right t
trim_right-trim_right [] = refl
trim_right-trim_right (c ∷ cs) = by_rest (trim_right cs) (trim_right-trim_right cs)
  where
    by_rest : (r : Text) → trim_right r ≡ r → trim_right (before_trimmed c r) ≡ before_trimmed c r
    by_rest [] e = elim (Bool-cases (is_space c)) [ inl b ↦ rw b refl | inr b ↦ rw (b, b) refl ]
    by_rest (d ∷ ds) e = trim_right-cons c d (d ∷ ds) ds e

-- The file of the chain's name holds the name that the two parameters make.
pub record IsNamed (s : State) : Type 0 where
  pub network : Text
  pub version : Text
  pub name : Text
  pub network_there : lookup "network.txt" s.files ≡ some network
  pub version_there : lookup "chain-version.txt" s.files ≡ some version
  pub name_there : lookup chain_name_file s.files ≡ some name
  pub matches : trim_right name ≡ chain_name_of (trim_right network) (trim_right version)

module _ (o : Outside) (keeps : KeepsStages o is_stage)
    (removes : (d : Disk)
      → (o.perform (spawn rm_state) d).code ≡ 0
      → lookup chain_name_file (o.perform (spawn rm_state) d).disk ≡ none)
    (spares : IsKept o is_param (spawn rm_state)) where
  params_stay : KeepsStages o is_param
  params_stay c nr f d st = keeps c nr f d (ground (arith, st))

  removed :
      (r : Result Stop (Unit {0}) × State)
      → IsOk (after r (λ _. need_do_run o rm_state)).0
      → lookup chain_name_file (after r (λ _. need_do_run o rm_state)).1.files ≡ none
  unfolding perform_command
  removed (err e, t) h = absurd h
  removed (ok a, t) h = by_code (o.perform (spawn rm_state) t.files) (removes t.files) h
    where
      by_code :
          (r : Ran)
          → (r.code ≡ 0 → lookup chain_name_file r.disk ≡ none)
          → let left : State = record {
            files = r.disk;
            log = spawn rm_state ∷ t.log;
            out = t.out;
          } in
            let end = (if nat_beq r.code 0 then pure tt else throw (aborted_exit r.code)) left in
            IsOk end.0 → lookup chain_name_file end.1.files ≡ none
      by_code r gone = elim (Bool-cases (nat_beq r.code 0)) [
        | inl e ↦ rw e (λ h'. gone (ground (arith, e)))
        | inr e ↦ rw e (λ h'. absurd h')
      ]

  rename_chain-Keeps : (name : Text) → Keeps is_param (rename_chain o name)
  unfolding rename_chain
  rename_chain-Keeps name =
      >>=-Keeps _ (same-Keeps {m = try_read chain_name_file} λ s. refl) λ current.
        >>=-Keeps _ (unless_stop (is_named current name))
          λ a. guard_file-Keeps o chain_name_file (same-Keeps {m = make o name} λ s. refl)
    where
      unless_stop : (b : Bool) → Keeps is_param (unless b (stop_chain o))
      unless_stop true = same-Keeps λ s. refl
      unless_stop false = stop_chain-Keeps o params_stay spares

  stop_chain-removes :
      (s : State) → IsOk (stop_chain o s).0 → lookup chain_name_file (stop_chain o s).1.files ≡ none
  unfolding stop_chain
  stop_chain-removes s h = removed _ h

  -- the file of the name is made where it is not there
  made :
      (name : Text) (s : State)
      → lookup chain_name_file s.files ≡ none
      → let r = guard_file o chain_name_file (make o name) s in
        IsOk r.0 → lookup chain_name_file r.1.files ≡ some name
  unfolding finish_guard create_file
  made name s absent =
      rw
        (guard_file-absent o chain_name_file (make o name) s
          ((contains_iff_lookup chain_name_file s.files).1 absent))
        (elim (Bool-cases (o.create_fails chain_name_file s.files)) [
          | inl e ↦ rw e (λ h. absurd h)
          | inr e ↦ rw e (λ h. lookup-insert_self chain_name_file name s.files)
        ])

  abbrev HasName : Text → State → Type 0
  HasName name s = (t : Text) × (lookup chain_name_file s.files ≡ some t) × (trim_right t ≡ name)

  made_again :
      (name : Text) (r : Result Stop (Unit {0}) × State)
      → trim_right name ≡ name
      → (IsOk r.0 → lookup chain_name_file r.1.files ≡ none)
      → let end = after r (λ _. guard_file o chain_name_file (make o name)) in
        IsOk end.0 → HasName name end.1
  made_again name (err e, s) trimmed absent h = absurd h
  made_again name (ok a, s) trimmed absent h = (name, made name s (absent tt) h, trimmed)

  renamed :
      (name : Text) (s : State) (current : Option Text)
      → trim_right name ≡ name
      → lookup chain_name_file s.files ≡ current
      → let end =
          (unless (is_named (Option.map trim_right current) name) (stop_chain o)
              >> guard_file o chain_name_file (make o name))
            s in
        IsOk end.0 → HasName name end.1
  renamed name s none trimmed e = made_again name (stop_chain o s) trimmed (stop_chain-removes s)
  renamed name s (some t) trimmed e = elim (Bool-cases (trim_right t == name)) [
    | inr b ↦ rw b (made_again name (stop_chain o s) trimmed (stop_chain-removes s))
    | inl b ↦
        rw (b, guard_file-found o chain_name_file (make o name) s (there t e))
          (λ h. (t, e, (==_iff (trim_right t) name).0 b))
  ]
    where
      there : (t : Text) → lookup chain_name_file s.files ≡ some t → Has s chain_name_file
      there t e f = ground (arith, e, f)

  rename_chain-name :
      (name : Text) (s : State)
      → trim_right name ≡ name
      → IsOk (rename_chain o name s).0
      → HasName name (rename_chain o name s).1
  unfolding rename_chain
  rename_chain-name name s trimmed h =
      renamed name s (lookup chain_name_file s.files) trimmed refl h

  pub rename_chain-IsNamed :
      (network version : Text) (s : State)
      → lookup "network.txt" s.files ≡ some network
      → lookup "chain-version.txt" s.files ≡ some version
      → let end = rename_chain o (chain_name_of (trim_right network) (trim_right version)) s in
        IsOk end.0 → IsNamed end.1
  rename_chain-IsNamed network version s n v h =
      let name = chain_name_of (trim_right network) (trim_right version) in
      let trimmed =
        trim_right-chain_name_of (trim_right network) (trim_right version)
        ∙ ap (chain_name_of (trim_right network)) (trim_right-trim_right version) in
      let (t, found, matches) = rename_chain-name name s trimmed h in
      let kept = rename_chain-Keeps name in
      record {
        network = network;
        version = version;
        name = t;
        network_there = kept.keeps s "network.txt" refl (λ e. ground (arith, n, e)) ∙ n;
        version_there = kept.keeps s "chain-version.txt" refl (λ e. ground (arith, v, e)) ∙ v;
        name_there = found;
        matches = matches;
      }
