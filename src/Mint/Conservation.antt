-- ===== src/Mint/Conservation.antt =====
-- demo1/vat-mint.js: the sum of the balances over the turns of any deposits.
use cosmic_swingset.Mint.{
  Number, natural, Thrown, Mint, balance, minus, make_mint, mint, commit, deposit, deposit_callback,
}
use cosmic_swingset.Base.{
  leb, nat_beq_iff, Bool-cases, Option-cases, Result, ok, Result-cases, nat_eq, string_eq, list_eq,
  ℕ, ◌+◌, ◌-◌, ◌≤◌, ◌<◌, ◌≡◌, refl, sym, ap, ◌∙◌, ◌≢◌, inl, inr, none, some, [], ◌∷◌, arith,
}
use cosmic_swingset.Base.Dict.{
  Dict, lookup, insert, lookup-insert, lookup-insert_self, lookup-insert_ne,
}

abbrev pub total : Dict ℕ ℕ → ℕ
total [] = 0
total ((_, n) ∷ rest) = n + total rest

total-insert :
    (k v old : ℕ) (l : Dict ℕ ℕ) → lookup k l ≡ some old → total (insert k v l) + old ≡ total l + v
unfolding lookup insert
total-insert k v old [] h = cc
total-insert k v old ((j, n) ∷ l) h = ground (arith, total-insert k v old l)

total-insert_new : (k v : ℕ) (l : Dict ℕ ℕ) → lookup k l ≡ none → total (insert k v l) ≡ total l + v
unfolding lookup insert
total-insert_new k v [] h = omega arith
total-insert_new k v ((j, n) ∷ l) h = ground (arith, total-insert_new k v l)

commit-total :
    (purse src amount mine theirs : ℕ) (l : Dict ℕ ℕ)
    → lookup purse l ≡ some mine
    → lookup src l ≡ some theirs
    → amount ≤ theirs
    → total (commit purse src amount (theirs - amount) l) ≡ total l
unfolding commit
commit-total purse src amount mine theirs l p q h = ground (
  arith,
  total-insert src (theirs - amount) theirs l q,
  lookup-insert src purse (theirs - amount) l,
  total-insert purse (mine + amount) mine (insert src (theirs - amount) l),
  total-insert purse (theirs - amount + amount) (theirs - amount) (insert src (theirs - amount) l),
  nat_beq_iff src purse,
)

balance-natural : (k n : ℕ) (l : Dict ℕ ℕ) → balance k l ≡ natural n → lookup k l ≡ some n
balance-natural k n l h = elim (Option-cases (lookup k l)) [
  | inl e ↦ absurd (ground (arith, e, h))
  | inr (v, e) ↦ ground (arith, e, h)
]

minus-natural : (a b n : ℕ) → minus a b ≡ natural n → (b ≤ a) × (n ≡ a - b)
minus-natural a b n h = elim (Bool-cases (leb b a)) [
  | inl e ↦ (ground (arith, e), ground (arith, e, h))
  | inr e ↦ absurd (ground (arith, e, h))
]

-- What can happen to a mint: a purse is made with some balance, the call of a deposit runs, or the
-- callback of a deposit runs, with what it throws leaving the mint alone.
pub data Step (nat : Number → Result Thrown ℕ) : Mint → ℕ → Mint → Type 0 where
  minted : {m m' : Mint} (n : ℕ) → m' ≡ (mint n m).1 → Step nat m n m'
  called : {m m' : Mint} (a : Number) (n : ℕ) → deposit nat a m ≡ ok (n, m') → Step nat m 0 m'
  came_back :
      {m m' : Mint} (purse src amount : ℕ)
      → deposit_callback nat purse src amount m ≡ ok m'
      → Step nat m 0 m'

-- A run, with the sum of the initial balances of the purses that it makes.
pub data Run (nat : Number → Result Thrown ℕ) : Mint → ℕ → Mint → Type 0 where
  done : {m : Mint} → Run nat m 0 m
  then_step :
      {m m' m'' : Mint} (a b c : ℕ)
      → Run nat m a m'
      → Step nat m' b m''
      → c ≡ a + b
      → Run nat m c m''

-- the purses that are listed are those that were made
abbrev IsMade : Mint → Type 0
IsMade m = (k : ℕ) → m.purses ≤ k → lookup k m.ledger ≡ none

commit-lookup :
    (k purse src amount n mine theirs : ℕ) (l : Dict ℕ ℕ)
    → lookup k l ≡ none
    → lookup purse l ≡ some mine
    → lookup src l ≡ some theirs
    → lookup k (commit purse src amount n l) ≡ none
unfolding commit
commit-lookup k purse src amount n mine theirs l e p q = ground (
  arith,
  lookup-insert src purse n l,
  lookup-insert src k n l,
  lookup-insert purse k (mine + amount) (insert src n l),
  lookup-insert purse k (n + amount) (insert src n l),
  nat_beq_iff src purse,
  nat_beq_iff src k,
  nat_beq_iff purse k,
)

mint-IsMade : (n : ℕ) (m : Mint) → IsMade m → IsMade (mint n m).1
unfolding mint
mint-IsMade n m made k h = ground (arith, lookup-insert m.purses k n m.ledger, made k)

-- `Nat` returns its argument, and only a natural number.
module _ (nat : Number → Result Thrown ℕ)
    (nat_returns : (x : Number) (n : ℕ) → nat x ≡ ok n → x ≡ natural n) where
  -- What a callback that does not throw has found and written.
  deposit_callback-eq-ok :
      (purse src amount : ℕ) (m m' : Mint)
      → deposit_callback nat purse src amount m ≡ ok m'
      → (mine theirs : ℕ) × (lookup purse m.ledger ≡ some mine)
        × (lookup src m.ledger ≡ some theirs)
        × (amount ≤ theirs)
        × (m' ≡ record m { ledger = commit purse src amount (theirs - amount) m.ledger })
  unfolding deposit_callback
  deposit_callback-eq-ok purse src amount m m' h =
      elim (Result-cases (nat (balance purse m.ledger))) [
        | inr (x, e) ↦ absurd (ground (arith, e, h))
        | inl (mine, e) ↦ elim (Result-cases (nat (balance src m.ledger))) [
          | inr (x, f) ↦ absurd (ground (arith, e, f, h))
          | inl (theirs, f) ↦ elim (Result-cases (nat (natural (mine + amount)))) [
            | inr (x, g) ↦ absurd (ground (arith, e, f, g, h))
            | inl (sum, g) ↦ elim (Result-cases (nat (minus theirs amount))) [
              | inr (x, d) ↦ absurd (ground (arith, e, f, g, d, h))
              | inl (left, d) ↦
                  let (le, left_is) = minus-natural theirs amount left (nat_returns _ left d) in
                  (
                    mine,
                    theirs,
                    balance-natural purse mine m.ledger (nat_returns _ mine e),
                    balance-natural src theirs m.ledger (nat_returns _ theirs f),
                    le,
                    rw (sym left_is) (ground (arith, e, f, g, d, h)),
                  )
            ]
          ]
        ]
      ]

  deposit-ledger :
      (a : Number) (n : ℕ) (m m' : Mint)
      → deposit nat a m ≡ ok (n, m')
      → (m'.ledger ≡ m.ledger) × (m'.purses ≡ m.purses)
  unfolding deposit
  deposit-ledger a n m m' h = elim (Result-cases (nat a)) [
    | inl (k, e) ↦ ground (arith, e, h)
    | inr (x, e) ↦ absurd (ground (arith, e, h))
  ]

  Step-total :
      {m m' : Mint} {n : ℕ}
      → Step nat m n m'
      → IsMade m
      → IsMade m' × (total m'.ledger ≡ total m.ledger + n)
  Step-total (minted {m} n e) made = rw e (
    mint-IsMade n m made,
    unfold mint in total-insert_new m.purses n m.ledger (made m.purses (omega arith)),
  )
  Step-total (called {m} {m'} a n e) made =
      let (l, p) = deposit-ledger a n m m' e in
      (λ k h. rw l (made k (omega arith)), omega (arith, ap total l))
  Step-total (came_back {m} {m'} purse src amount e) made =
      let (mine, theirs, p, q, le, r) = deposit_callback-eq-ok purse src amount m m' e in
      rw r (
        (λ k h.
            commit-lookup k purse src amount (theirs - amount) mine theirs m.ledger (made k h) p q),
        omega (arith, commit-total purse src amount mine theirs m.ledger p q le),
      )

  Run-total :
      {m m' : Mint} {n : ℕ}
      → Run nat m n m'
      → IsMade m
      → IsMade m' × (total m'.ledger ≡ total m.ledger + n)
  Run-total done made = (made, omega arith)
  Run-total (then_step a b c r st e) made =
      let (made', t) = Run-total r made in
      let (made'', u) = Step-total st made' in (made'', omega arith)

  -- Over every run of a new mint, with the turns of its deposits in any order, the balances of all
  -- purses add up to what was minted: no deposit makes or loses money, also where the source is
  -- unknown or the purse itself, or the amount is not covered.
  pub total_is_minted : {m : Mint} {n : ℕ} → Run nat make_mint n m → total m.ledger ≡ n
  total_is_minted r = omega (arith, (Run-total r (λ k h. unfold lookup in refl)).1)

  -- A callback between two different purses that does not throw moves the amount: it leaves the
  -- source with that much less, and the purse with that much more.
  deposit_callback_moves :
      (purse src amount : ℕ) (m m' : Mint)
      → purse ≢ src
      → deposit_callback nat purse src amount m ≡ ok m'
      → (mine theirs : ℕ) × (lookup purse m.ledger ≡ some mine)
        × (lookup src m.ledger ≡ some theirs)
        × (amount ≤ theirs)
        × (lookup purse m'.ledger ≡ some (mine + amount))
        × (lookup src m'.ledger ≡ some (theirs - amount))
  unfolding commit
  deposit_callback_moves purse src amount m m' ne e =
      let (mine, theirs, p, q, le, r) = deposit_callback-eq-ok purse src amount m m' e in
      let l : Dict ℕ ℕ = insert src (theirs - amount) m.ledger in
      let now : lookup purse l ≡ some mine =
        ground (arith, lookup-insert src purse (theirs - amount) m.ledger) in
      let same : m'.ledger ≡ insert purse (mine + amount) l = ground (arith, r, now) in
      (
        mine,
        theirs,
        p,
        q,
        le,
        rw (same, lookup-insert_self),
        rw (same) (
            lookup-insert_ne purse src (mine + amount) l ne
            ∙ lookup-insert_self src (theirs - amount) m.ledger),
      )

  -- A source that holds less than the amount makes the callback throw, and so nothing is written.
  deposit_callback_overdraft :
      (purse src amount theirs : ℕ) (m m' : Mint)
      → lookup src m.ledger ≡ some theirs
      → theirs < amount
      → deposit_callback nat purse src amount m ≢ ok m'
  deposit_callback_overdraft purse src amount theirs m m' q lt h =
      let (_, found, _, q', le, _) = deposit_callback-eq-ok purse src amount m m' h in
      ground (arith, q, q')
