-- ===== src/Mint.antt =====
-- demo1/vat-mint.js: one ledger of balances, its purses known by the order in which they were made.
-- A balance is a natural number, as `mint` is given one. A deposit runs in two turns: its call, and
-- the callback of the promise for the source purse. `Nat` of @agoric/nat is a parameter.
pub mod Conservation
mod Tests
use cosmic_swingset.Base.{
  leb, if◌then◌else◌, Result, ok, err, ◌>>=◌, ◌>>◌, nat_eq, string_eq, list_eq, ℕ, ◌+◌, ◌-◌, none,
  some, [],
}
use cosmic_swingset.Base.Dict.{Dict, lookup, insert}

-- A value that reaches `Nat(…)`: a natural number, or anything else.
pub data Number : Type 0 where
  natural : ℕ → Number
  other : Number

pub data Thrown : Type 0 where
  not_a_nat : Thrown

pub record Mint : Type 0 where
  pub ledger : Dict ℕ ℕ
  pub purses : ℕ
  pub debug_counter : ℕ

-- `ledger.get(purse)`, which is undefined for what is no purse
abbrev pub balance : ℕ → Dict ℕ ℕ → Number
balance purse ledger = elim (lookup purse ledger) [ none ↦ other | some n ↦ natural n ]

-- `srcOldBal - amount`, which is no natural number where it is below zero
abbrev pub minus : ℕ → ℕ → Number
minus a b = if leb b a then natural (a - b) else other

-- `makeMint()`
abbrev pub make_mint : Mint
make_mint = record { ledger = []; purses = 0; debug_counter = 0 }

-- `mint(initialBalance, name)`
pub mint : ℕ → Mint → ℕ × Mint
mint initial_balance m = (
  m.purses,
  record m { ledger = insert m.purses initial_balance m.ledger; purses = m.purses + 1 },
)

-- `makeEmptyPurse(name)`
pub make_empty_purse : Mint → ℕ × Mint
unfolding mint
make_empty_purse m = mint 0 m

-- the writes behind the commit point
pub commit : ℕ → ℕ → ℕ → ℕ → Dict ℕ ℕ → Dict ℕ ℕ
commit purse src amount src_new_bal ledger =
    let l = insert src src_new_bal ledger in
    elim (lookup purse l) [ none ↦ l | some now ↦ insert purse (now + amount) l ]

-- `Nat(x)`, which returns its argument or throws
module _ (nat : Number → Result Thrown ℕ) where
  -- the call of `deposit`, up to its promise: the amount that the callback will use
  pub deposit : Number → Mint → Result Thrown (ℕ × Mint)
  deposit amount m = do
    checked ← nat amount
    ok (checked, record m { debug_counter = m.debug_counter + 1 })

  -- the callback of `deposit`
  pub deposit_callback : ℕ → ℕ → ℕ → Mint → Result Thrown Mint
  unfolding commit
  deposit_callback purse src amount m = do
    my_old_bal ← nat (balance purse m.ledger)
    src_old_bal ← nat (balance src m.ledger)
    _ ← nat (natural (my_old_bal + amount))
    src_new_bal ← nat (minus src_old_bal amount)
    ok (record m { ledger = commit purse src amount src_new_bal m.ledger })
