-- ===== src/Setup/World/Guarded.antt =====
-- What settles of the parts of a command of setup/main.js: reads, commands and guardeds.
use mathlib.Core.Path.{subst}
use cosmic_swingset.Base.Dict.{
  lookup, contains, lookup-insert_self, lookup-insert_ne, contains_iff_lookup,
}
use cosmic_swingset.Setup.World.{
  Command, poll, Outside, State, Stop, M, after, create_file, perform_command, finish_guard,
  guard_file, await_status,
}
use cosmic_swingset.Setup.World.Settles.{Has, IsOk, Keeps, Settles}
use cosmic_swingset.Files.{Disk}
use cosmic_swingset.Files.Guard.{Maker}
use cosmic_swingset.Base.{
  Bool-cases, Option-cases, keep, Result, ok, err, nat_eq, string_eq, list_eq, ℕ, String, ◌≡◌, refl,
  sym, ap, ◌∙◌, ◌≢◌, inl, inr, Bool, true, false, not, Option, none, some, List, [], ◌∷◌, arith,
}
use cosmic_swingset.Base.Text.{Text}

-- `contains` true says that the file is there
Has-contains : (f : String) (s : State) → contains f s.files ≡ true → Has s f
Has-contains f s e = ground (arith, contains_iff_lookup f s.files)

contains-Has : (f : String) (s : State) → Has s f → contains f s.files ≡ true
contains-Has f s h = ground (arith, contains_iff_lookup f s.files)

module _ {is_stage : String → Bool} where
  pub same-Keeps :
      {A : Type 0} {m : M A} → ((s : State) → (m s).1.files ≡ s.files) → Keeps is_stage m
  same-Keeps e = record { keeps = λ s f st h. ap (lookup f) (e s) }

module _ {is_stage : String → Bool} {is_each : Command → Bool} where
  -- a part that starts nothing and makes no file
  pub same-Settles :
      {A : Type 0} {m : M A}
      → ((s : State) → ((m s).1.files ≡ s.files) × ((m s).1.log ≡ s.log))
      → Settles is_stage is_each [] m
  same-Settles e = record {
    staged = tt;
    kept = same-Keeps (λ s. (e s).0);
    makes = λ s h. tt;
    quiet = λ s h. ap (keep (λ c. not (is_each c))) (e s).1;
  }

-- a command that leaves the stages as they are that are there
abbrev pub IsKept : Outside → (String → Bool) → Command → Type 0
IsKept o is_stage c =
    (f : String) (d : Disk)
    → is_stage f ≡ true
    → lookup f d ≢ none
    → lookup f (o.perform c d).disk ≡ lookup f d

module _ (o : Outside) {is_stage : String → Bool} where
  pub perform_command-Keeps :
      (c : Command) → IsKept o is_stage c → Keeps is_stage (perform_command o c)
  unfolding perform_command
  perform_command-Keeps c h = record { keeps = λ s f st has. h f s.files st has }

  module _ (is_each : Command → Bool) where
    -- a command that is started each time
    pub perform_command-Settles :
        (c : Command)
        → IsKept o is_stage c
        → is_each c ≡ true
        → Settles is_stage is_each [] (perform_command o c)
    unfolding perform_command
    perform_command-Settles c h each = record {
      staged = tt;
      kept = perform_command-Keeps c h;
      makes = λ s ok. tt;
      quiet = λ s has. ground (arith, each);
    }

  pub await_status-Keeps :
      {A : Type 0} (words : List Text) (accept : Text → ℕ → Option A)
      → Keeps is_stage (await_status o words accept)
  unfolding await_status
  await_status-Keeps words accept = same-Keeps (λ s. ground arith)

  -- the runs of a status playbook, too
  pub await_status-Settles :
      {A : Type 0} (is_each : Command → Bool) (words : List Text) (accept : Text → ℕ → Option A)
      → is_each (poll words) ≡ true
      → Settles is_stage is_each [] (await_status o words accept)
  unfolding await_status
  await_status-Settles is_each words accept each = record {
    staged = tt;
    kept = await_status-Keeps words accept;
    makes = λ s ok. tt;
    quiet = λ s has. ground (arith, each);
  }

module _ (o : Outside) (file : String) where
  create_file-keeps :
      (t : Text) (s : State) (f : String)
      → f ≢ file
      → lookup f (create_file o file t s).1.files ≡ lookup f s.files
  unfolding create_file
  create_file-keeps t s f ne = ground (arith, lookup-insert_ne file f t s.files)

  create_file-makes :
      (t : Text) (s : State) → IsOk (create_file o file t s).0 → Has (create_file o file t s).1 file
  unfolding create_file
  create_file-makes t s h = ground (arith, lookup-insert_self file t s.files)

  finish_guard-keeps :
      (made : Maker) (s : State) (f : String)
      → f ≢ file
      → lookup f (finish_guard o file made s).1.files ≡ lookup f s.files
  unfolding finish_guard
  finish_guard-keeps made s f ne = elim (Option-cases made.contents) [
    | inr (c, e) ↦ rw (e, finish_guard) (create_file-keeps c s f ne)
    | inl e ↦ elim (Option-cases made.returned) [
      | inl g ↦ rw (e, g, finish_guard) (create_file-keeps o.now s f ne)
      | inr (x, g) ↦ rw (e, g, finish_guard) refl
    ]
  ]

  -- a file that `finish_guard` has made, by the cases of what the maker gave
  finished-makes :
      (contents : Option Text) (returned : Option ℕ) (s : State)
      → let made : Maker = record { contents = contents; returned = returned } in
        IsOk (finish_guard o file made s).0 → Has (finish_guard o file made s).1 file
  unfolding finish_guard
  finished-makes (some c) returned s h = create_file-makes c s h
  finished-makes none none s h = create_file-makes o.now s h
  finished-makes none (some x) s h = absurd h

  finish_guard-makes :
      (made : Maker) (s : State)
      → IsOk (finish_guard o file made s).0
      → Has (finish_guard o file made s).1 file
  finish_guard-makes made s h = finished-makes made.contents made.returned s h

  guarded-makes :
      (r : Result Stop Maker × State)
      → IsOk (after r (finish_guard o file)).0
      → Has (after r (finish_guard o file)).1 file
  guarded-makes (ok made, t) h = finish_guard-makes made t h
  guarded-makes (err x, t) h = absurd h

  pub guard_file-absent :
      (maker : M Maker) (s : State)
      → contains file s.files ≡ false
      → guard_file o file maker s ≡ after (maker s) (finish_guard o file)
  unfolding guard_file
  guard_file-absent maker s e = rw (e, guard_file) refl

  pub guard_file-found :
      (maker : M Maker) (s : State) → Has s file → guard_file o file maker s ≡ (ok tt, s)
  unfolding guard_file
  guard_file-found maker s h = rw (contains-Has file s h, guard_file) refl

  module _ {is_stage : String → Bool} where
    guarded_kept :
        (maker : M Maker) (s : State) (f : String)
        → Keeps is_stage maker
        → is_stage f ≡ true
        → Has s f
        → contains file s.files ≡ false
        → lookup f (after (maker s) (finish_guard o file)).1.files ≡ lookup f s.files
    guarded_kept maker s f kept st h absent =
        let other : f ≢ file =
          λ e. ground (arith, contains-Has f s h, ap (λ g. contains g s.files) e, absent) in
        finished (maker s) other (kept.keeps s f st h)
      where
        finished :
            (r : Result Stop Maker × State)
            → f ≢ file
            → lookup f r.1.files ≡ lookup f s.files
            → lookup f (after r (finish_guard o file)).1.files ≡ lookup f s.files
        finished (ok made, t) ne e = finish_guard-keeps made t f ne ∙ e
        finished (err x, t) ne e = e

    pub guard_file-Keeps :
        {maker : M Maker} → Keeps is_stage maker → Keeps is_stage (guard_file o file maker)
    unfolding guard_file
    guard_file-Keeps {maker} kept = record {
      keeps = λ s f st h. elim (Bool-cases (contains file s.files)) [
        | inl e ↦ rw (e, guard_file) refl
        | inr e ↦ rw (e, guard_file) (guarded_kept maker s f kept st h e)
      ];
    }

    -- `guardFile`: the file is made, and nothing is started where it is there
    pub guard_file-Settles :
        {is_each : Command → Bool} {maker : M Maker}
        → is_stage file ≡ true
        → Keeps is_stage maker
        → Settles is_stage is_each (file ∷ []) (guard_file o file maker)
    unfolding guard_file
    guard_file-Settles {maker} st kept = record {
      staged = (st, tt);
      kept = guard_file-Keeps kept;
      makes = λ s h. elim (Bool-cases (contains file s.files)) [
        | inl e ↦ rw (e, guard_file) (Has-contains file s e, tt)
        | inr e ↦ (
          subst (λ r. IsOk r.0 → Has r.1 file) (sym (guard_file-absent maker s e))
              (guarded-makes (maker s)) h,
          tt,
        )
      ];
      quiet = λ s h. rw (guard_file-found maker s h.0) refl;
    }
