-- ===== src/Setup/World/Settles.antt =====
-- Commands of setup/main.js that settle: once a command has returned, running it again starts nothing
-- but what it starts each time.
use mathlib.Core.Path.{subst}
use cosmic_swingset.Base.Dict.{lookup}
use cosmic_swingset.Setup.World.{Command, State, Stop, M, after, ◌>>=◌, ◌>>◌}
use cosmic_swingset.Base.{
  keep, All, All-append, Result, ok, err, nat_eq, string_eq, list_eq, String, ◌≡◌, sym, ◌∙◌, ◌≢◌,
  Bool, true, not, ◌&&◌, none, List, [], ◌∷◌, ◌++◌, arith,
}

-- the file is there
abbrev pub Has : State → String → Type 0
Has s f = lookup f s.files ≢ none

abbrev pub IsOk : {A : Type 0} → Result Stop A → Type 0
IsOk (ok _) = Unit
IsOk (err _) = ⊥

module _ (is_stage : String → Bool) where
  -- a command leaves the stages as they are that it finds
  pub record Keeps {A : Type 0} (m : M A) : Type 0 where
    pub keeps :
        (s : State) (f : String)
        → is_stage f ≡ true
        → Has s f
        → lookup f (m s).1.files ≡ lookup f s.files

module _ (is_each : Command → Bool) where
  -- what was started, but for what is started each time
  abbrev pub started_once : State → List Command
  started_once s = keep (λ c. not (is_each c)) s.log

module _ (is_stage : String → Bool) (is_each : Command → Bool) where
  -- It makes the stages `made`, and with them starts nothing more that is to be started once.
  pub record Settles {A : Type 0} (made : List String) (m : M A) : Type 0 where
    pub staged : All (λ f. is_stage f ≡ true) made
    pub kept : Keeps is_stage m
    pub makes : (s : State) → IsOk (m s).0 → All (Has (m s).1) made
    pub quiet :
        (s : State) → All (Has s) made → started_once is_each (m s).1 ≡ started_once is_each s

Has-same : (f : String) (s t : State) → lookup f t.files ≡ lookup f s.files → Has s f → Has t f
Has-same f s t e h = subst (λ x. x ≢ none) (sym e) h

module _ {is_stage : String → Bool} where
  module _ {A B : Type 0} (k : A → M B) where
    after_kept :
        (f : String) (s : State) (r : Result Stop A × State)
        → is_stage f ≡ true
        → Has s f
        → lookup f r.1.files ≡ lookup f s.files
        → ((a : A) → Keeps is_stage (k a))
        → lookup f (after r k).1.files ≡ lookup f s.files
    after_kept f s (ok a, t) st h e later = (later a).keeps t f st (Has-same f s t e h) ∙ e
    after_kept f s (err x, t) st h e later = e

    pub >>=-Keeps :
        {m : M A} → Keeps is_stage m → ((a : A) → Keeps is_stage (k a)) → Keeps is_stage (m >>= k)
    >>=-Keeps {m} first later = record {
      keeps = λ s f st h. after_kept f s (m s) st h (first.keeps s f st h) later;
    }

  Has-kept :
      {A : Type 0} {m : M A} (s : State) (fs : List String)
      → Keeps is_stage m
      → All (λ f. is_stage f ≡ true) fs
      → All (Has s) fs
      → All (Has (m s).1) fs
  Has-kept s [] kept st h = tt
  Has-kept {m} s (f ∷ fs) kept st h =
      (Has-same f s (m s).1 (kept.keeps s f st.0 h.0) h.0, Has-kept s fs kept st.1 h.1)

All-split : (P : String → Type 0) (xs ys : List String) → All P (xs ++ ys) → All P xs × All P ys
All-split P [] ys h = (tt, h)
All-split P (x ∷ xs) ys h = let (a, b) = All-split P xs ys h.1 in ((h.0, a), b)

abbrev pub every : (String → Bool) → List String → Bool
every p [] = true
every p (x ∷ xs) = p x && every p xs

All-every : (p : String → Bool) (xs : List String) → every p xs ≡ true → All (λ f. p f ≡ true) xs
All-every p [] e = tt
All-every p (x ∷ xs) e = ground (arith, All-every p xs)

module _ {is_stage : String → Bool} {is_each : Command → Bool} where
  module _ {A B : Type 0} (xs ys : List String) (k : A → M B) where
    after-makes :
        (r : Result Stop A × State)
        → (IsOk r.0 → All (Has r.1) xs)
        → All (λ f. is_stage f ≡ true) xs
        → ((a : A) → Settles is_stage is_each ys (k a))
        → IsOk (after r k).0
        → All (Has (after r k).1) (xs ++ ys)
    after-makes (ok a, t) made st later h =
        All-append _ xs ys (Has-kept t xs (later a).kept st (made tt)) ((later a).makes t h)
    after-makes (err e, t) made st later h = absurd h

    pub after-quiet :
        (s : State) (r : Result Stop A × State)
        → started_once is_each r.1 ≡ started_once is_each s
        → All (Has r.1) ys
        → ((a : A) → Settles is_stage is_each ys (k a))
        → started_once is_each (after r k).1 ≡ started_once is_each s
    after-quiet s (ok a, t) e h later = (later a).quiet t h ∙ e
    after-quiet s (err x, t) e h later = e

  -- one command behind another
  pub >>=-Settles :
      {A B : Type 0} {xs ys : List String} {m : M A} {k : A → M B}
      → Settles is_stage is_each xs m
      → every is_stage ys ≡ true
      → ((a : A) → Settles is_stage is_each ys (k a))
      → Settles is_stage is_each (xs ++ ys) (m >>= k)
  >>=-Settles {xs} {ys} {m} {k} first ystaged later =
      let sy : All (λ f. is_stage f ≡ true) ys = All-every is_stage ys ystaged in
      record {
        staged = All-append _ xs ys first.staged sy;
        kept = >>=-Keeps k first.kept (λ a. (later a).kept);
        makes = λ s h. after-makes xs ys k (m s) (first.makes s) first.staged later h;
        quiet = λ s h.
            let (hx, hy) = All-split _ xs ys h in
            after-quiet xs ys k s (m s) (first.quiet s hx) (Has-kept s ys first.kept sy hy) later;
      }

  pub >>-Settles :
      {A B : Type 0} {xs ys : List String} {m : M A} {n : M B}
      → Settles is_stage is_each xs m
      → every is_stage ys ≡ true
      → Settles is_stage is_each ys n
      → Settles is_stage is_each (xs ++ ys) (m >> n)
  >>-Settles first ystaged later = >>=-Settles first ystaged (λ a. later)
