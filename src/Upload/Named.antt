-- ===== src/Upload/Named.antt =====
-- lib/ag-solo/upload-contract.js: the names under which contracts are saved, and `--once`.
use mathlib.Core.List.{append-nil}
use cosmic_swingset.Upload.{
  Action, install, set_upload, resolve_ready, Answers, Install, Collected, Upload, collect,
  parse_name_path, contracts, install_actions, set_actions, ready_actions, finish, upload,
}
use cosmic_swingset.Base.{
  Bool-cases, Option-cases, if◌then◌else◌, any, any-append, ok, ◌≡◌, refl, sym, ap, ◌∙◌, inl, inr,
  Bool, true, false, ◌&&◌, ◌||◌, Option, none, some, List, [], ◌∷◌, ◌++◌, arith,
}
use cosmic_swingset.Base.Text.{Text}

module _ {C : Type 0} where
  -- what was saved in the uploads
  abbrev pub saved : List (Action C) → List (Text × Option C)
  saved [] = []
  saved (set_upload n c ∷ rest) = (n, some c) ∷ saved rest
  saved (_ ∷ rest) = saved rest

  abbrev pub is_resolve : Action C → Bool
  is_resolve resolve_ready = true
  is_resolve _ = false

  saved-append : (xs ys : List (Action C)) → saved (xs ++ ys) ≡ saved xs ++ saved ys
  saved-append [] ys = refl
  saved-append (install t s ∷ xs) ys = saved-append xs ys
  saved-append (set_upload n c ∷ xs) ys = ground (arith, saved-append xs ys)
  saved-append (resolve_ready ∷ xs) ys = saved-append xs ys

module _ {C : Type 0} (a : Answers C) where
  -- What an argument is to save: nothing where its target is not there, and otherwise, under its own
  -- name, what its target gives for the bundle of its own path.
  unfoldable pub saved_of : Text → List (Text × Option C)
  saved_of p = elim (parse_name_path p) [
    | none ↦ []
    | some n ↦ elim (a.bundle n.path) [
      | none ↦ []
      | some source ↦
          if a.has_target n.target then (n.name, a.install_result n.target source) ∷ [] else []
    ]
  ]

  unfoldable pub to_save : List Text → List (Text × Option C)
  unfolding saved_of
  to_save [] = []
  to_save (p ∷ ps) = saved_of p ++ to_save ps

  -- what each install gave, with the name at its index
  abbrev given : List Text → List Install → List (Text × Option C)
  given [] is = []
  given (n ∷ ns) [] = []
  given (n ∷ ns) (i ∷ is) = (n, a.install_result i.target i.source) ∷ given ns is

  -- the two arrays, where nothing was thrown
  given-collect :
      (ps : List Text)
      → (collect a ps).thrown ≡ none
      → given (collect a ps).names (collect a ps).installs ≡ to_save ps
  unfolding collect to_save saved_of
  given-collect [] h = refl
  given-collect (p ∷ ps) h = elim (Option-cases (parse_name_path p)) [
    | inl e ↦ absurd (ground (arith, e, h))
    | inr (n, e) ↦ elim (Option-cases (a.bundle n.path)) [
      | inl f ↦ absurd (ground (arith, e, f, h))
      | inr (source, f) ↦ elim (Bool-cases (a.has_target n.target)) [
        | inl g ↦
            rw (e, f, g, collect, to_save, saved_of)
              (ap (λ l. (n.name, a.install_result n.target source) ∷ l)
                (given-collect ps (ground (arith, e, f, g, h))))
        | inr g ↦
            rw (e, f, g, collect, to_save, saved_of) (given-collect ps (ground (arith, e, f, g, h)))
      ]
    ]
  ]

  saved-install_actions : (is : List Install) → saved (install_actions a is) ≡ []
  saved-install_actions [] = refl
  saved-install_actions (i ∷ is) = saved-install_actions is

  saved-ready_actions : (once : Bool) → saved (ready_actions a once) ≡ []
  saved-ready_actions true = refl
  saved-ready_actions false = refl

  saved-set_actions :
      (ns : List Text) (is : List Install) (cs : List C)
      → contracts a is ≡ some cs
      → saved (set_actions a ns cs) ≡ given ns is
  unfolding contracts
  saved-set_actions [] is cs h = refl
  saved-set_actions (n ∷ ns) [] cs h =
      let none_left : [] ≡ cs = ground (arith, h) in rw (sym none_left) refl
  saved-set_actions (n ∷ ns) (i ∷ is) cs h =
      elim (Option-cases (a.install_result i.target i.source)) [
        | inl e ↦ absurd (ground (arith, e, h))
        | inr (c, e) ↦ elim (Option-cases (contracts a is)) [
          | inl f ↦ absurd (ground (arith, e, f, h))
          | inr (rest, f) ↦
              let whole : c ∷ rest ≡ cs = ground (arith, e, f, h) in
              rw (sym whole, e) (ap (λ l. (n, some c) ∷ l) (saved-set_actions ns is rest f))
        ]
      ]

  finish-saved :
      (once : Bool) (c : Collected)
      → (finish a once c).exit ≡ ok 0
      → (c.thrown ≡ none) × (saved (finish a once c).actions ≡ given c.names c.installs)
  unfolding finish
  finish-saved once c h = elim (Option-cases c.thrown) [
    | inr (x, e) ↦ absurd (ground (arith, e, h))
    | inl e ↦ elim (Option-cases (contracts a c.installs)) [
      | inl f ↦ absurd (ground (arith, e, f, h))
      | inr (cs, f) ↦ (
        e,
        rw (e, f, finish)
            (saved-append (install_actions a c.installs)
                (set_actions a c.names cs ++ ready_actions a once)
              ∙ rw (saved-install_actions c.installs) (
                  saved-append (set_actions a c.names cs) (ready_actions a once)
                  ∙ rw (saved-ready_actions once, append-nil)
                      (saved-set_actions c.names c.installs cs f))),
      )
    ]
  ]

  upload-fresh :
      (once : Bool) (p : Text) (ps : List Text)
      → (once && a.is_ready) ≡ false
      → upload a once (p ∷ ps) ≡ finish a once (collect a (p ∷ ps))
  unfolding upload
  upload-fresh once p ps fresh = rw (fresh, upload) refl

  -- An upload that ends with 0, and did not find the chain ready, has saved for every argument whose
  -- target is there, in their order and under the name in that argument, what that target gave for the
  -- bundle of that argument's path, and nothing else.
  pub upload_names :
      (once : Bool) (p : Text) (ps : List Text)
      → (once && a.is_ready) ≡ false
      → (upload a once (p ∷ ps)).exit ≡ ok 0
      → saved (upload a once (p ∷ ps)).actions ≡ to_save (p ∷ ps)
  upload_names once p ps fresh h =
      let e = upload-fresh once p ps fresh in
      let (passed, named) =
        finish-saved once (collect a (p ∷ ps)) (sym (ap (λ (u : Upload C). u.exit) e) ∙ h) in
      ap (λ (u : Upload C). saved u.actions) e ∙ named ∙ given-collect (p ∷ ps) passed

  any-ready_actions : (xs : List (Action C)) → any is_resolve (xs ++ ready_actions a true) ≡ true
  any-ready_actions xs = ground (arith, any-append is_resolve xs (resolve_ready ∷ []))

  finish-resolves :
      (c : Collected)
      → (finish a true c).exit ≡ ok 0
      → any is_resolve (finish a true c).actions ≡ true
  unfolding finish
  finish-resolves c h = elim (Option-cases c.thrown) [
    | inr (x, e) ↦ absurd (ground (arith, e, h))
    | inl e ↦ elim (Option-cases (contracts a c.installs)) [
      | inl f ↦ absurd (ground (arith, e, f, h))
      | inr (cs, f) ↦
          let sets = set_actions a c.names cs in
          rw (e, f, finish)
            (any-append is_resolve (install_actions a c.installs) (sets ++ ready_actions a true)
              ∙ rw (any-ready_actions sets) (ground arith))
    ]
  ]

  upload-silent : (ps : List Text) → a.is_ready ≡ true → (upload a true ps).actions ≡ []
  unfolding upload
  upload-silent [] r = refl
  upload-silent (p ∷ ps) r = ground (arith, r)

-- what a later upload is answered, once the actions of an earlier one were taken
abbrev pub then_ready : {C : Type 0} → List (Action C) → Answers C → Answers C
then_ready actions a = record a { is_ready = a.is_ready || any is_resolve actions }

-- With `--once`, a second upload after one that ended with 0 sends nothing: it finds the chain ready,
-- as the first had left it or found it.
pub upload_once :
    {C : Type 0} (a : Answers C) (ps : List Text)
    → (upload a true ps).exit ≡ ok 0
    → (upload (then_ready (upload a true ps).actions a) true ps).actions ≡ []
upload_once a [] h = unfold upload in refl
upload_once a (p ∷ ps) h = elim (Bool-cases a.is_ready) [
  | inl ready ↦
      upload-silent (then_ready (upload a true (p ∷ ps)).actions a) (p ∷ ps) (ground (arith, ready))
  | inr fresh ↦
      let e = upload-fresh a true p ps (ground (arith, fresh)) in
      let resolved : any is_resolve (upload a true (p ∷ ps)).actions ≡ true =
        ap (λ u. any is_resolve u.actions) e
        ∙ finish-resolves a (collect a (p ∷ ps)) (sym (ap (λ u. u.exit) e) ∙ h) in
      upload-silent (then_ready (upload a true (p ∷ ps)).actions a) (p ∷ ps)
        (ground (arith, resolved))
]
