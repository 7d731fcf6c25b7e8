-- ===== src/Upload.antt =====
-- lib/ag-solo/upload-contract.js: the contracts that are installed on a chain and then named in the
-- uploads, as a trace of what is sent. What the chain and the bundler answer is a parameter.
pub mod Named
mod Tests
use cosmic_swingset.Base.{
  leb, nat_beq, if◌then◌else◌, length, any, Result, ok, err, ℕ, Bool, not, ◌&&◌, ◌||◌, Option, none,
  some, List, [], ◌∷◌, ◌++◌,
}
use cosmic_swingset.Base.Text.{Text, is_line_end}

-- `(([^\W-]+)-[^=]+)=(.+)`, matched
pub record NamePath : Type 0 where
  pub name : Text
  pub target : Text
  pub path : Text

-- `\w`
abbrev pub is_word : ℕ → Bool
is_word c =
    (leb b'a' c && leb c b'z')
    || (leb b'A' c && leb c b'Z')
    || (leb b'0' c && leb c b'9')
    || nat_beq c b'_'

-- what a test holds of, as far as it goes, and the rest
abbrev pub span : (ℕ → Bool) → Text → Text × Text
span p [] = ([], [])
span p (c ∷ cs) = let (taken, rest) = span p cs in if p c then (c ∷ taken, rest) else ([], c ∷ cs)

-- `=(.+)$`, behind a name that is not empty
abbrev pub with_path : Text → Text → Text → Option NamePath
with_path target name [] = none
with_path target name (_ ∷ []) = none
with_path target name (_ ∷ c ∷ cs) =
    if any is_line_end (c ∷ cs)
    then none
    else some (record { name = name; target = target; path = c ∷ cs })

-- `-[^=]+`, behind a target that is not empty
abbrev pub with_rest : Text → Text → Option NamePath
with_rest [] rest = none
with_rest (t ∷ ts) [] = none
with_rest (t ∷ ts) (d ∷ rest) =
    let (own, path) = span (λ c. not (nat_beq c b'=')) rest in
    if nat_beq d b'-' && not (nat_beq (length own) 0)
    then with_path (t ∷ ts) ((t ∷ ts) ++ (b'-' ∷ own)) path
    else none

-- `namePath.match(/^(([^\W-]+)-[^=]+)=(.+)$/)`: each part stops at a character it cannot have
unfoldable pub parse_name_path : Text → Option NamePath
parse_name_path t = let (target, rest) = span is_word t in with_rest target rest

pub data Action (C : Type 0) : Type 0 where
  -- `E(targetObj).install(source, moduleFormat)`
  install : Text → Text → Action C
  -- `uploadsC.M.set(name, contract)`
  set_upload : Text → C → Action C
  -- `READY.resolve`
  resolve_ready : Action C

pub data Thrown : Type 0 where
  not_name_path : Text → Thrown
  bundle_failed install_failed : Thrown

-- What the other side answers.
pub record Answers (C : Type 0) : Type 0 where
  pub is_ready : Bool
  pub has_target : Text → Bool
  -- `buildSourceBundle(path)`
  pub bundle : Text → Option Text
  pub install_result : Text → Text → Option C

-- An install that was sent.
pub record Install : Type 0 where
  pub target : Text
  pub source : Text

-- `names` and the installs of `contractsAP`, and what the loop threw.
pub record Collected : Type 0 where
  pub names : List Text
  pub installs : List Install
  pub thrown : Option Thrown

pub record Upload (C : Type 0) : Type 0 where
  pub actions : List (Action C)
  -- the exit code, or the rejection
  pub exit : Result Thrown ℕ

-- `contractsAP.push` and `names.push`, in front of what the later rounds push
abbrev pub and_install : Text → Install → Collected → Collected
and_install name i c = record c { names = name ∷ c.names; installs = i ∷ c.installs }

module _ {C : Type 0} (a : Answers C) where
  -- the loop over the arguments
  pub collect : List Text → Collected
  unfolding parse_name_path
  collect [] = record { names = []; installs = []; thrown = none }
  collect (p ∷ ps) =
      let rest = collect ps in
      elim (parse_name_path p) [
        | none ↦ record { names = []; installs = []; thrown = some (not_name_path p) }
        | some n ↦ elim (a.bundle n.path) [
          | none ↦ record { names = []; installs = []; thrown = some bundle_failed }
          | some source ↦
              if a.has_target n.target
              then and_install n.name (record { target = n.target; source = source }) rest
              else rest
        ]
      ]

  -- `Promise.all(contractsAP)`
  pub contracts : List Install → Option (List C)
  contracts [] = some []
  contracts (i ∷ is) =
      let rest = contracts is in
      elim (a.install_result i.target i.source) [
        | none ↦ none
        | some c ↦ elim rest [ none ↦ none | some cs ↦ some (c ∷ cs) ]
      ]

  abbrev pub install_actions : List Install → List (Action C)
  install_actions [] = []
  install_actions (i ∷ is) = install i.target i.source ∷ install_actions is

  -- the loop over the contracts, with `names[i]` for each
  abbrev pub set_actions : List Text → List C → List (Action C)
  set_actions [] cs = []
  set_actions (n ∷ ns) [] = []
  set_actions (n ∷ ns) (c ∷ cs) = set_upload n c ∷ set_actions ns cs

  abbrev pub ready_actions : Bool → List (Action C)
  ready_actions once = if once then resolve_ready ∷ [] else []

  -- what follows the loop over the arguments
  pub finish : Bool → Collected → Upload C
  unfolding contracts
  finish once c = elim c.thrown [
    | some e ↦ record { actions = install_actions c.installs; exit = err e }
    | none ↦ elim (contracts c.installs) [
      | none ↦ record { actions = install_actions c.installs; exit = err install_failed }
      | some cs ↦ record {
        actions = install_actions c.installs ++ (set_actions c.names cs ++ ready_actions once);
        exit = ok 0;
      }
    ]
  ]

  -- `upload(basedir, args)`, with the option `--once` and the arguments behind the options
  pub upload : Bool → List Text → Upload C
  unfolding finish collect
  upload once [] = record { actions = []; exit = ok 1 }
  upload once (p ∷ ps) =
      if once && a.is_ready
      then record { actions = []; exit = ok 0 }
      else finish once (collect (p ∷ ps))
