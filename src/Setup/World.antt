-- ===== src/Setup/World.antt =====
-- What the commands of setup/main.js run on: the files of the setup directory, and the programs that
-- they start. A command is a function of this state that may throw; it is logged with what it starts.
-- The command's directory is `SETUP_HOME`, so that every path is relative to it.
pub mod Settles
pub mod Guarded
use cosmic_swingset.Base.Dict.{lookup, contains, insert}
use cosmic_swingset.Base.Text.{Text, codes}
use cosmic_swingset.Files.{Disk}
use cosmic_swingset.Files.Guard.{Maker}
use cosmic_swingset.Setup.Shell.{is_space, shell_escape}
use cosmic_swingset.Setup.Status.{Try, accepted, aborted, wait_for_status}
use cosmic_swingset.Base.{
  nat_beq, if◌then◌else◌, Result, ok, err, nat_eq, string_eq, list_eq, ℕ, String, Bool, true, false,
  ◌&&◌, Option, none, some, List, [], ◌∷◌, ◌++◌,
}

-- What a command starts, as it is started.
pub data Command : Type 0 where
  -- `doRun(words)`
  spawn : List Text → Command
  -- `needBacktick(line)`
  shell : Text → Command
  -- the runs of the status playbook in a `waitForStatus`
  poll : List Text → Command
  -- `inquirer.prompt`
  ask : Text → Command

pub record Ran : Type 0 where
  pub code : ℕ
  pub output : Text
  pub disk : Disk

-- what `ansible-inventory --host` tells of a host; a key that is missing or empty is `none`
pub record Host : Type 0 where
  pub ansible_host : Option Text
  pub ansible_ssh_user : Option Text
  pub ansible_ssh_private_key_file : Option Text

-- The programs, the file system and the installation that the commands meet.
pub record Outside : Type 0 where
  -- what a command comes to, with the files that it finds
  pub perform : Command → Disk → Ran
  -- the runs of a status playbook, in order
  pub tries : List Text → List Try
  -- whether `createFile` throws; it leaves everything as it was then
  pub create_fails : String → Disk → Bool
  -- `JSON.parse` of that
  pub parse_host : Text → Option Host
  -- `String(new Date())`
  pub now : Text
  pub progname : Text
  -- `__dirname`, `SETUP_DIR` and `SETUP_HOME`
  pub code_dir : Text
  pub setup_dir : Text
  pub setup_home : Text

pub record State : Type 0 where
  pub files : Disk
  -- the newest first
  pub log : List Command
  -- what was written to `process.stdout`
  pub out : Text

pub data Stop : Type 0 where
  -- `does not appear to be a directory created by`
  not_inited : Stop
  -- `readFile` of a file that is not there
  no_file : String → Stop
  create_failed : String → Stop
  -- what `guardFile` throws for a maker
  maker_failed : ℕ → Stop
  unexpected_exit : ℕ → Stop
  aborted_exit : ℕ → Stop
  -- `waitForStatus` still waits after these tries
  still_waits : Stop
  needs : String → Stop
  not_a_word : Text → Stop
  user_request : Stop
  no_match : Stop
  bad_json : Stop
  not_a_version_part : Stop

abbrev pub M : Type 0 → Type 0
M A = State → Result Stop A × State

-- the rest of a command, behind what its first part came to
abbrev pub after : {A B : Type 0} → Result Stop A × State → (A → M B) → Result Stop B × State
after (ok a, s) k = k a s
after (err e, s) k = (err e, s)

infixl 5 ◌>>=◌ ◌>>◌
abbrev pub ◌>>=◌ : {A B : Type 0} → M A → (A → M B) → M B
◌>>=◌ m k s = after (m s) k

abbrev pub ◌>>◌ : {A B : Type 0} → M A → M B → M B
◌>>◌ m k s = after (m s) (λ _. k)

abbrev pub pure : {A : Type 0} → A → M A
pure a s = (ok a, s)

abbrev pub throw : {A : Type 0} → Stop → M A
throw e s = (err e, s)

abbrev pub unless : Bool → M (Unit {0}) → M (Unit {0})
unless true m = pure tt
unless false m = m

-- `exists(path)`
abbrev pub exists : String → M Bool
exists path s = (ok (contains path s.files), s)

-- a character before a text that ends in no space
abbrev pub before_trimmed : ℕ → Text → Text
before_trimmed c [] = if is_space c then [] else c ∷ []
before_trimmed c (d ∷ ds) = c ∷ d ∷ ds

-- `String(s).trimRight()`
abbrev pub trim_right : Text → Text
trim_right [] = []
trim_right (c ∷ cs) = before_trimmed c (trim_right cs)

-- `trimReadFile(path)`; `readFile` throws where there is no such file
abbrev pub trim_read_file : String → M Text
trim_read_file path s = (read (lookup path s.files), s)
  where
    read : Option Text → Result Stop Text
    read none = err (no_file path)
    read (some t) = ok (trim_right t)

-- `process.stdout.write(t)`
abbrev pub write_out : Text → M (Unit {0})
write_out t s = (ok tt, record s { out = s.out ++ t })

-- `inited()`, for the directory that `init` makes
unfoldable pub inited : M (Unit {0})
inited s =
    if contains "ansible.cfg" s.files && contains "vars.tf" s.files
    then (ok tt, s)
    else (err not_inited, s)

module _ (o : Outside) where
  -- `createFile(path, contents)`
  unfoldable pub create_file : String → Text → M (Unit {0})
  create_file path contents s =
      if o.create_fails path s.files
      then (err (create_failed path), s)
      else (ok tt, record s { files = insert path contents s.files })

  -- a program is run: its exit code and its output
  unfoldable pub perform_command : Command → M (ℕ × Text)
  perform_command c s =
      let r = o.perform c s.files in
      (ok (r.code, r.output), record s { files = r.disk; log = c ∷ s.log })

  -- `doRun(words)`
  abbrev pub do_run : List Text → M ℕ
  do_run words = perform_command (spawn words) >>= λ r. pure r.0

  -- `needDoRun(words)`
  abbrev pub need_do_run : List Text → M (Unit {0})
  need_do_run words =
      do_run words >>= λ code. if nat_beq code 0 then pure tt else throw (aborted_exit code)

  -- `needBacktick(line)`
  abbrev pub need_backtick : Text → M Text
  need_backtick line = perform_command (shell line) >>= λ r.
      if nat_beq r.0 0 then pure r.1 else throw (unexpected_exit r.0)

  -- `${shellEscape(progname)} cmd`
  abbrev pub own_command : String → Text
  own_command cmd = shell_escape o.progname ++ (32 ∷ codes cmd)

  -- the end of `guardFile`, where the maker has returned
  unfoldable pub finish_guard : String → Maker → M (Unit {0})
  unfolding create_file
  finish_guard file made = elim made.contents [
    | some contents ↦ create_file file contents
    | none ↦ elim made.returned [ none ↦ create_file file o.now | some e ↦ throw (maker_failed e) ]
  ]

  -- `guardFile(file, maker)`, with a maker that calls `makeFile` last
  unfoldable pub guard_file : String → M Maker → M (Unit {0})
  unfolding finish_guard
  guard_file file maker =
      exists file >>= λ found. if found then pure tt else (maker >>= finish_guard file)

  -- a maker that gives `makeFile` these contents
  abbrev pub make : Text → M Maker
  make contents = pure (record { contents = some contents; returned = none })

  -- a maker that makes no file, and returns 0 or nothing
  abbrev pub stamp : M (Unit {0}) → M Maker
  stamp m = m >>= λ _. pure (record { contents = none; returned = none })

  -- `waitForStatus`, its playbook's words and the test of an output
  unfoldable pub await_status : {A : Type 0} → List Text → (Text → ℕ → Option A) → M A
  await_status words accept s =
      let t = record s { log = poll words ∷ s.log } in
      elim (wait_for_status accept (o.tries words)) [
        | none ↦ (err still_waits, t)
        | some (_, accepted a) ↦ (ok a, t)
        | some (_, aborted code) ↦ (err (aborted_exit code), t)
      ]

  -- `playbook(name, ...args)`
  abbrev pub playbook : Text → List Text → List Text
  playbook name args =
      codes "./ansible-playbook.sh"
      ∷ (o.setup_dir ++ (codes "/ansible/" ++ (name ++ codes ".yml")))
      ∷ args
