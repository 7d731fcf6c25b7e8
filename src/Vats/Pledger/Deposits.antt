-- ===== src/Vats/Pledger/Deposits.antt =====
-- What `depositAll` of lib/ag-solo/vats/vat-pledger.js does to the balances of an account.
use cosmic_swingset.Base.Dict.{lookup, insert, lookup-insert, lookup-insert_self}
use cosmic_swingset.Base.Text.{Text}
use cosmic_swingset.Vats.Pledger.{
  Pledger, purses_in, purses_of, or_zero, balance, get_purse, deposit_into, with_purse, with_found,
  check_assay, deposit_all,
}
use cosmic_swingset.Base.{
  if◌then◌else◌, Bool-cases, Option-cases, ◌==◌, ==_iff, nat_eq, string_eq, list_eq, ℕ, ◌+◌, ◌≤◌,
  ◌<◌, ◌≡◌, refl, sym, ap, ◌∙◌, ◌≢◌, inl, inr, true, Option, none, some, arith,
}

-- what an account has of an assay
abbrev pub held_in : Option ℕ → Pledger → ℕ
held_in none s = 0
held_in (some purse) s = balance purse s

abbrev pub held : Text → ℕ → Pledger → ℕ
held name assay s = held_in (get_purse name assay s) s

-- Every purse of the account was made, and no two assays share one.
pub record IsSound (name : Text) (s : Pledger) : Type 0 where
  pub purse_made : (assay purse : ℕ) → get_purse name assay s ≡ some purse → purse < s.made
  pub apart :
      (a b purse : ℕ) → get_purse name a s ≡ some purse → get_purse name b s ≡ some purse → a ≡ b
  pub new_empty : (purse : ℕ) → s.made ≤ purse → lookup purse s.balances ≡ none

balance-deposit_into :
    (purse other amount : ℕ) (s : Pledger)
    → balance other (deposit_into purse amount s)
      ≡ (if purse == other then balance purse s + amount else balance other s)
unfolding deposit_into
balance-deposit_into purse other amount s =
    ground (arith, lookup-insert purse other (balance purse s + amount) s.balances)

get_purse-deposit_into :
    (name : Text) (purse other amount : ℕ) (s : Pledger)
    → get_purse name other (deposit_into purse amount s) ≡ get_purse name other s
unfolding get_purse deposit_into
get_purse-deposit_into name purse other amount s = refl

get_purse-with_purse :
    (name : Text) (assay other amount : ℕ) (s : Pledger)
    → get_purse name other (with_purse name assay amount s)
      ≡ (if assay == other then some s.made else get_purse name other s)
unfolding get_purse with_purse deposit_into
get_purse-with_purse name assay other amount s =
    ap (λ o. lookup other (purses_in o))
      (lookup-insert_self name (insert assay s.made (purses_of name s)) s.accounts)
    ∙ lookup-insert assay other s.made (purses_of name s)

balance-with_purse :
    (name : Text) (assay purse amount : ℕ) (s : Pledger)
    → balance purse (with_purse name assay amount s)
      ≡ (if s.made == purse then balance s.made s + amount else balance purse s)
unfolding with_purse deposit_into
balance-with_purse name assay purse amount s =
    ground (arith, lookup-insert s.made purse (balance s.made s + amount) s.balances)

lookup-with_purse :
    (name : Text) (assay purse amount : ℕ) (s : Pledger)
    → lookup purse (with_purse name assay amount s).balances
      ≡ (if s.made == purse then some (balance s.made s + amount) else lookup purse s.balances)
unfolding with_purse deposit_into
lookup-with_purse name assay purse amount s =
    lookup-insert s.made purse (balance s.made s + amount) s.balances

with_purse-made :
    (name : Text) (assay amount : ℕ) (s : Pledger)
    → (with_purse name assay amount s).made ≡ s.made + 1
unfolding with_purse deposit_into
with_purse-made name assay amount s = refl

with_purse-IsSound :
    (name : Text) (assay amount : ℕ) (s : Pledger)
    → IsSound name s
    → IsSound name (with_purse name assay amount s)
with_purse-IsSound name assay amount s h = record {
  purse_made = λ a purse e. ground (
    arith,
    e,
    get_purse-with_purse name assay a amount s,
    h.purse_made a purse,
    with_purse-made name assay amount s,
  );
  apart = λ a b purse ea eb. ground (
    arith,
    ea,
    eb,
    get_purse-with_purse name assay a amount s,
    get_purse-with_purse name assay b amount s,
    h.apart a b purse,
    h.purse_made a purse,
    h.purse_made b purse,
  );
  new_empty = λ purse le. ground (
    arith,
    le,
    lookup-with_purse name assay purse amount s,
    with_purse-made name assay amount s,
    h.new_empty purse,
  );
}

-- a new purse has what is put into it
held-with_purse :
    (name : Text) (assay amount : ℕ) (s : Pledger)
    → IsSound name s
    → held name assay (with_purse name assay amount s) ≡ amount
held-with_purse name assay amount s h =
    let t = with_purse name assay amount s in
    let found : get_purse name assay t ≡ some s.made =
      get_purse-with_purse name assay assay amount s ∙ ground arith in
    let empty : balance s.made s ≡ 0 = ap or_zero (h.new_empty s.made (omega arith)) in
    ap (λ o. held_in o t) found
    ∙ (balance-with_purse name assay s.made amount s ∙ ground (arith, empty))

-- Of two deposits of a new assay that overlap, the first is lost: both wait for a purse, and the purse
-- of the second takes the place of the first one's, with what is in it. The account then has the
-- amount of the second alone.
pub overlap_loses :
    (name : Text) (assay first second : ℕ) (s : Pledger)
    → IsSound name s
    → get_purse name assay s ≡ none
    → (check_assay name assay first s ≡ (true, s))
      × (check_assay name assay second s ≡ (true, s))
      × (held name assay (with_purse name assay second (with_purse name assay first s)) ≡ second)
unfolding check_assay
overlap_loses name assay first second s h e = (
  ap (λ o. with_found o first s) e,
  ap (λ o. with_found o second s) e,
  held-with_purse name assay second (with_purse name assay first s)
      (with_purse-IsSound name assay first s h),
)

-- the other assays of the account, where a purse is made
held-with_purse_other :
    (name : Text) (assay other amount : ℕ) (s : Pledger)
    → IsSound name s
    → assay ≢ other
    → held name other (with_purse name assay amount s) ≡ held name other s
held-with_purse_other name assay other amount s h ne =
    let t = with_purse name assay amount s in
    let same : get_purse name other t ≡ get_purse name other s =
      get_purse-with_purse name assay other amount s ∙ ground (arith, ne) in
    ap (λ o. held_in o t) same ∙ kept (get_purse name other s) (h.purse_made other)
  where
    kept :
        (o : Option ℕ)
        → ((purse : ℕ) → o ≡ some purse → purse < s.made)
        → held_in o (with_purse name assay amount s) ≡ held_in o s
    kept none lt = refl
    kept (some purse) lt =
        ground (arith, balance-with_purse name assay purse amount s, lt purse refl)

-- the account, where the purse of the assay is there
held-deposit_into :
    (name : Text) (assay other purse amount : ℕ) (s : Pledger)
    → IsSound name s
    → get_purse name assay s ≡ some purse
    → held name other (deposit_into purse amount s)
      ≡ (if assay == other then balance purse s + amount else held name other s)
held-deposit_into name assay other purse amount s h e =
    ap (λ o. held_in o (deposit_into purse amount s))
      (get_purse-deposit_into name purse other amount s)
    ∙ by_other (get_purse name other s) refl
  where
    by_other :
        (o : Option ℕ)
        → get_purse name other s ≡ o
        → held_in o (deposit_into purse amount s)
          ≡ (if assay == other then balance purse s + amount else held_in o s)
    by_other none q =
        let ne : assay ≢ other =
          λ w. let clash : some purse ≡ none = sym e ∙ (ap (λ a. get_purse name a s) w ∙ q) in cc in
        ground (arith, ne)
    by_other (some p) q =
        let same : assay ≡ other → p ≡ purse = λ w.
          let both : some p ≡ some purse = sym q ∙ (ap (λ a. get_purse name a s) (sym w) ∙ e) in
          cc in
        let back : p ≡ purse → assay ≡ other = λ w. h.apart assay other purse e (q ∙ ap some w) in
        ground (arith, same, back, balance-deposit_into purse p amount s)

-- the account, where it has no purse of the assay
held-first :
    (name : Text) (assay other amount : ℕ) (s : Pledger)
    → IsSound name s
    → get_purse name assay s ≡ none
    → held name other (with_purse name assay amount s)
      ≡ (if assay == other then held name assay s + amount else held name other s)
held-first name assay other amount s h e =
    let t = with_purse name assay amount s in
    let zero_before : held name assay s ≡ 0 = ap (λ o. held_in o s) e in
    elim (Bool-cases (assay == other)) [
      | inl b ↦
          let same : assay ≡ other = (==_iff assay other).0 b in
          let added : held name assay t ≡ held name assay s + amount =
            omega (arith, held-with_purse name assay amount s h, zero_before) in
          rw b (ap (λ a. held name a t) (sym same) ∙ added)
      | inr b ↦
          let ne : assay ≢ other = ground (arith, b) in
          rw b (held-with_purse_other name assay other amount s h ne)
    ]

-- A deposit with nothing between its turns adds the payment to what the account has of its assay, and
-- leaves what it has of every other assay, where no two assays of the account share a purse and a mint
-- makes purses that are new and empty.
pub deposit_all-held :
    (name : Text) (assay other amount : ℕ) (s : Pledger)
    → IsSound name s
    → held name other (deposit_all name assay amount s)
      ≡ (if assay == other then held name assay s + amount else held name other s)
unfolding deposit_all check_assay
deposit_all-held name assay other amount s h = elim (Option-cases (get_purse name assay s)) [
  | inr (purse, e) ↦ rw (deposit_all, e) (held-deposit_into name assay other purse amount s h e)
  | inl e ↦
      let step : deposit_all name assay amount s ≡ with_purse name assay amount s =
        rw (deposit_all, e) refl in
      ap (held name other) step ∙ held-first name assay other amount s h e
]
