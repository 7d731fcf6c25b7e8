-- ===== src/Vats/Pledger.antt =====
-- lib/ag-solo/vats/vat-pledger.js. Assays and purses are numbers; a purse comes from the mint of its
-- assay, empty and new, and its deposits work.
pub mod Deposits
mod Tests
use cosmic_swingset.Base.Dict.{Dict, lookup, contains, insert}
use cosmic_swingset.Base.Text.{Text, codes, sort_texts}
use cosmic_swingset.Base.{
  if◌then◌else◌, nat_eq, string_eq, list_eq, ℕ, ◌+◌, Bool, true, false, Option, none, some, List,
  [], ◌∷◌, ◌++◌, map,
}

-- The accounts by their names, with the purses by their assays; the purses that the mints made, and
-- what is in them; and what is known of the registry.
pub record Pledger : Type 0 where
  pub accounts : Dict Text (Dict ℕ ℕ)
  pub made : ℕ
  pub balances : Dict ℕ ℕ
  pub registered_assays : Dict ℕ Text

-- `getPledger()`
abbrev pub get_pledger : Pledger
get_pledger = record { accounts = []; made = 0; balances = []; registered_assays = [] }

-- `getAccount(accountName)`
pub get_account : Text → Pledger → Pledger
get_account name s =
    if contains name s.accounts then s else record s { accounts = insert name [] s.accounts }

-- `assayPurses` of an account, which is there
abbrev pub purses_in : Option (Dict ℕ ℕ) → Dict ℕ ℕ
purses_in none = []
purses_in (some purses) = purses

abbrev pub purses_of : Text → Pledger → Dict ℕ ℕ
purses_of name s = purses_in (lookup name s.accounts)

-- `E(purse).getBalance()`
abbrev pub or_zero : Option ℕ → ℕ
or_zero none = 0
or_zero (some n) = n

abbrev pub balance : ℕ → Pledger → ℕ
balance purse s = or_zero (lookup purse s.balances)

-- the end of `getPurse(assay)`, with the assay's object at hand
unfoldable pub get_purse : Text → ℕ → Pledger → Option ℕ
get_purse name assay s = lookup assay (purses_of name s)

-- `E(purse).depositAll(payment)`
unfoldable pub deposit_into : ℕ → ℕ → Pledger → Pledger
deposit_into purse amount s = record s {
  balances = insert purse (balance purse s + amount) s.balances;
}

-- the turn of `depositAll` behind `makeEmptyPurse`: the purse is set, and the payment goes into it
unfoldable pub with_purse : Text → ℕ → ℕ → Pledger → Pledger
with_purse name assay amount s =
    let purse = s.made in
    let kept : Pledger = record s {
      made = s.made + 1;
      accounts = insert name (insert assay purse (purses_of name s)) s.accounts;
    } in
    deposit_into purse amount kept

-- the turn of `depositAll` behind `getAssay`: whether it has to wait for a purse, and the state
abbrev pub with_found : Option ℕ → ℕ → Pledger → Bool × Pledger
with_found none amount s = (true, s)
with_found (some purse) amount s = (false, deposit_into purse amount s)

unfoldable pub check_assay : Text → ℕ → ℕ → Pledger → Bool × Pledger
check_assay name assay amount s = with_found (get_purse name assay s) amount s

-- the turns of `depositAll` with nothing between them
unfoldable pub deposit_all : Text → ℕ → ℕ → Pledger → Pledger
deposit_all name assay amount s =
    let (waits, t) = check_assay name assay amount s in
    if waits then with_purse name assay amount t else t

-- An entry of `accounts` as `sort()` compares it, `String([name, account])`.
abbrev pub entry_text : Text → Text
entry_text name = name ++ codes ",[object Object]"

-- the names, by their entries
abbrev pub by_entry : Dict Text (Dict ℕ ℕ) → Dict Text Text
by_entry [] = []
by_entry ((name, purses) ∷ rest) = (entry_text name, name) ∷ by_entry rest

abbrev pub names_at : Dict Text Text → List Text → List Text
names_at names [] = []
names_at names (t ∷ ts) = elim (lookup t names) [
  | none ↦ names_at names ts
  | some name ↦ name ∷ names_at names ts
]

-- `Object.entries(accounts).sort()`, its names
pub sorted_names : Dict Text (Dict ℕ ℕ) → List Text
sorted_names accounts =
    let names = by_entry accounts in names_at names (sort_texts (map (λ e. e.0) names))

-- `getBalance()` of an account, as assays with amounts
abbrev pub get_balance : Text → Pledger → List (ℕ × ℕ)
get_balance name s = map (λ p. (p.0, balance p.1 s)) (purses_of name s)

-- `setRegistry(newRegistry)`
pub set_registry : Pledger → Pledger
set_registry s = record s { registered_assays = [] }

-- `reverse_get` is what the registry answers, which is never an empty text.
module _ (reverse_get : ℕ → Option Text) where
  -- `registeredAssays`, with the assay if the registry knows it
  abbrev pub learn : ℕ → Dict ℕ Text → Dict ℕ Text
  learn assay known = elim (lookup assay known) [
    | some id ↦ known
    | none ↦ elim (reverse_get assay) [ none ↦ known | some id ↦ insert assay id known ]
  ]

  -- `registeredAssays.get(assay) || 'unregistered'`
  abbrev pub assay_id : ℕ → Dict ℕ Text → Text
  assay_id assay known = elim (lookup assay known) [ none ↦ codes "unregistered" | some id ↦ id ]

  -- `cookedBalance`, one assay after the other
  pub cook : List (ℕ × ℕ) → Dict ℕ Text → List (ℕ × ℕ × Text) × Dict ℕ Text
  cook [] known = ([], known)
  cook ((assay, amount) ∷ rest) known =
      let next = learn assay known in
      let (cooked, last) = cook rest next in ((assay, amount, assay_id assay next) ∷ cooked, last)

  -- the loop over the accounts, in the order of its entries
  pub cook_accounts : List Text → Pledger → List (Text × List (ℕ × ℕ × Text)) × Pledger
  unfolding cook
  cook_accounts [] s = ([], s)
  cook_accounts (name ∷ names) s =
      let (cooked, known) = cook (get_balance name s) s.registered_assays in
      let (rest, last) = cook_accounts names (record s { registered_assays = known }) in
      ((name, cooked) ∷ rest, last)

  -- `getBalances()`
  pub get_balances : Pledger → List (Text × List (ℕ × ℕ × Text)) × Pledger
  unfolding cook_accounts sorted_names
  get_balances s = cook_accounts (sorted_names s.accounts) s
