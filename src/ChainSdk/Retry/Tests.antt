-- ===== src/ChainSdk/Retry/Tests.antt =====
-- Runs of the tries of lib/ag-solo/chain-cosmos-sdk.js.
use cosmic_swingset.ChainSdk.Retry.{Attempt, parsed, retry_helper, retry_helper_first}
use cosmic_swingset.Base.{
  Result, ok, err, ℕ, zero, suc, ◌≡◌, refl, true, false, Option, none, some, [], ◌∷◌, ◌++◌,
}

-- A helper's output is its number, and 0 does not parse.
abbrev parse_number : ℕ → Result (Unit {0}) (Option ℕ)
parse_number zero = err tt
parse_number (suc n) = ok (some n)

abbrev tried : Option ℕ → Attempt ℕ
tried output = record { cancelled_before = false; ret = output; cancelled_after = false }

abbrev cancelled_try : Attempt ℕ
cancelled_try = record { cancelled_before = true; ret = none; cancelled_after = true }

retry_helper_first_example :
    retry_helper parse_number none ((tried none ∷ tried (some 0) ∷ []) ++ tried (some 8) ∷ [])
    ≡ some (ok 7)
unfolding parsed
retry_helper_first_example =
    retry_helper_first parse_number none (tried none ∷ tried (some 0) ∷ []) [] (tried (some 8)) 7
      ((refl, refl, refl), ((refl, refl, refl), tt)) refl refl refl
