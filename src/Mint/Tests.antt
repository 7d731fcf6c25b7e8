-- ===== src/Mint/Tests.antt =====
-- Runs of demo1/vat-mint.js.
use cosmic_swingset.Mint.{
  Number, natural, other, Thrown, not_a_nat, Mint, make_mint, mint, commit, deposit_callback,
}
use cosmic_swingset.Mint.Conservation.{
  total, minted, came_back, Run, done, then_step, total_is_minted,
}
use cosmic_swingset.Base.{
  leb, if◌then◌else◌, Result, ok, err, nat_eq, string_eq, list_eq, ℕ, ◌≡◌, refl, [], ◌∷◌, arith,
}
use cosmic_swingset.Base.Dict.{lookup, insert}

-- `Nat` with its bound on what a number holds exactly.
abbrev safe_nat : Number → Result Thrown ℕ
safe_nat (natural n) = if leb n 9007199254740991 then ok n else err not_a_nat
safe_nat other = err not_a_nat

safe_nat_returns : (x : Number) (n : ℕ) → safe_nat x ≡ ok n → x ≡ natural n
safe_nat_returns (natural k) n e = ground arith
safe_nat_returns other n e = cc

abbrev two_purses : Mint
two_purses = (mint 30 (mint 100 make_mint).1).1

-- purse 1 after 25 of purse 0 were deposited in it
abbrev moved : Mint
moved = record two_purses { ledger = (0, 75) ∷ (1, 55) ∷ [] }

ran : deposit_callback safe_nat 1 0 25 two_purses ≡ ok moved
unfolding mint deposit_callback commit lookup insert
ran = refl

run_moved : Run safe_nat make_mint 130 moved
run_moved =
    then_step 130 0 130
      (then_step 100 30 130 (then_step 0 100 100 done (minted 100 refl) (omega arith))
        (minted 30 refl) (omega arith))
      (came_back 1 0 25 ran) (omega arith)

total_is_minted_example : total moved.ledger ≡ 130
total_is_minted_example = total_is_minted safe_nat safe_nat_returns run_moved
