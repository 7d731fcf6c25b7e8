-- ===== src/Solo/Basedir.antt =====
-- `initBasedir` of lib/ag-solo/init-basedir.js, which makes the directory of a solo machine. Each call
-- of the file system, and each program, may fail.
mod Marked
mod Tests
use cosmic_swingset.Base.Text.{Text, codes}
use cosmic_swingset.Base.{
  nat_beq, if◌then◌else◌, keep, Result, ok, err, ◌==◌, nat_eq, string_eq, list_eq, Bool, true,
  false, not, ◌||◌, Option, none, some, List, [], ◌∷◌, ◌++◌,
}
use cosmic_swingset.Base.Sort.{place}

-- The files of the directory, by what they are.
pub data Place : Type 0 where
  basedir connections html_source contracts_source vats_source html_dir contracts_dir vats_dir
        node_modules state_file :
      Place
  html_file contract_file vat_file : Text → Place
  -- ag-cosmos-helper-statedir, and ag-cosmos-helper-address
  helper_dir helper_address : Place
  -- solo-README.md, by which such a directory is known
  readme : Place

pub data Op : Type 0 where
  make_dir : Place → Op
  -- `fs.readdirSync`
  read_dir : Place → Op
  write : Place → Text → Op
  -- a file of the program is copied
  copy : Place → Op
  link : Place → Op
  git_describe : Op
  -- `ag-cosmos-helper keys add`, and `keys show`
  add_key show_key : Op

-- What the program finds, and what fails.
pub record Found : Type 0 where
  -- whether a call fails, by what was done before
  pub fails : Op → List Op → Bool
  pub exists : Place → Bool
  -- what `fs.readdirSync` gives of html, of contracts, if it is there, and of vats
  pub html_names : List Text
  pub contract_names : Option (List Text)
  pub vat_names : List Text
  -- what the programs print
  pub described : Text
  pub address : Text

-- A run: the result, and what was done.
abbrev pub M : Type 0
M = List Op → Result Op (Unit {0}) × List Op

abbrev pub after : Result Op (Unit {0}) × List Op → M → Result Op (Unit {0}) × List Op
after (ok _, done) k = k done
after (err e, done) k = (err e, done)

infixl 5 ◌>>◌
abbrev pub ◌>>◌ : M → M → M
◌>>◌ m k done = after (m done) k

abbrev pub skip : M
skip done = (ok tt, done)

-- `try { m } catch { handler }`
abbrev pub caught : Result Op (Unit {0}) × List Op → M → Result Op (Unit {0}) × List Op
caught (ok _, done) handler = (ok tt, done)
caught (err e, done) handler = handler done

abbrev pub try_or : M → M → M
try_or m handler done = caught (m done) handler

module _ (f : Found) where
  -- one call
  pub perform : Op → M
  perform op done = if f.fails op done then (err op, done) else (ok tt, done ++ op ∷ [])

  -- `.filter(name => name.match(/^[^.]/))`
  abbrev pub is_shown : Text → Bool
  is_shown [] = false
  is_shown (c ∷ cs) = not (nat_beq c b'.')

  -- `name.match(/\.js$/)`
  abbrev pub is_js : Text → Bool
  is_js [] = false
  is_js (c ∷ cs) = (c ∷ cs) == codes ".js" || is_js cs

  -- `.forEach(name => fs.copyFileSync(...))`
  pub copy_all : (Text → Place) → List Text → M
  copy_all place [] = skip
  copy_all place (name ∷ names) = perform (copy (place name)) >> copy_all place names

  -- the `try` around the first `mkdirSync`
  pub make_basedir : M
  unfolding perform
  make_basedir =
      try_or (perform (make_dir basedir))
        λ done. if f.exists helper_address then (ok tt, done) else (err (make_dir basedir), done)

  pub copy_contracts : Option (List Text) → M
  unfolding copy_all
  copy_contracts none = skip
  copy_contracts (some names) =
      perform (read_dir contracts_source) >> copy_all contract_file (keep is_shown names)

  -- the version codes
  pub save_versions : M
  unfolding perform
  save_versions =
      perform (copy (html_file (codes "package.json")))
      >> try_or (perform (copy (html_file (codes "git-revision.txt")))) (
          perform git_describe
          >> perform (write (html_file (codes "git-revision.txt")) f.described))
      >> try_or (perform (copy (html_file (codes "package-lock.json")))) skip

  -- the keypair, where `egresses` has `cosmos` and there is none
  pub make_keys : Bool → M
  unfolding perform
  make_keys false = skip
  make_keys true =
      if f.exists helper_dir
      then skip
      else (perform (make_dir helper_dir)
          >> perform add_key
          >> perform show_key
          >> perform (write helper_address f.address))

  -- all but the marker
  pub fill_basedir : Text → Bool → M
  unfolding make_basedir save_versions copy_contracts make_keys
  fill_basedir connections_json cosmos =
      make_basedir
      >> perform (write connections connections_json)
      >> perform (make_dir html_dir)
      >> perform (read_dir html_source)
      >> copy_all html_file (keep is_shown f.html_names)
      >> perform (make_dir contracts_dir)
      >> copy_contracts f.contract_names
      >> save_versions
      >> perform (make_dir vats_dir)
      >> perform (read_dir vats_source)
      >> copy_all vat_file (keep is_js f.vat_names)
      >> perform (link node_modules)
      >> perform (write state_file (codes "{\"mailbox\":{},\"kernel\":{}}\n"))
      >> make_keys cosmos

  -- `initBasedir`, with the JSON of the connections, and whether `egresses` has `cosmos`
  pub init_basedir : Text → Bool → Result Op (Unit {0}) × List Op
  unfolding fill_basedir
  init_basedir connections_json cosmos =
      (fill_basedir connections_json cosmos >> perform (copy readme)) []
