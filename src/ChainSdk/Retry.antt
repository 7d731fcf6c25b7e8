-- ===== src/ChainSdk/Retry.antt =====
-- `retryRpcAddr` and `retryHelper` of lib/ag-solo/chain-cosmos-sdk.js. What the helper does and how
-- its output parses are parameters; the tries that happen are a list, in order.
mod Tests
use mathlib.Core.Option
use cosmic_swingset.Base.{
  if◌then◌else◌, All, Result, ok, err, ◌≡◌, refl, ◌⊎◌, Bool, true, false, Option, none, some, List,
  [], ◌∷◌, ◌++◌, arith,
}

-- the sentinels that are thrown
pub data Cancelled : Type 0 where
  cancel_use_default : Cancelled

pub record Attempt (Output : Type 0) : Type 0 where
  pub cancelled_before : Bool
  -- `ret`, or undefined where `execFile` failed
  pub ret : Option Output
  pub cancelled_after : Bool

module _ {Output R : Type 0} (parse_return : Output → Result (Unit {0}) (Option R)) where
  -- the `try` around `parseReturn`: a throw is logged, and counts as undefined
  pub parsed : Option Output → Option R
  parsed none = none
  parsed (some output) = elim (parse_return output) [ ok r ↦ r | err _ ↦ none ]

  -- `tryOnce` of `retryHelper`
  pub try_once : Attempt Output → Result Cancelled (Option R)
  unfolding parsed
  try_once a =
      if a.cancelled_before
      then err cancel_use_default
      else if a.cancelled_after
      then err cancel_use_default
      else ok (parsed a.ret)

  -- `none` while no try has ended the loop
  pub retry_rpc_addr : List (Attempt Output) → Option (Result Cancelled R)
  unfolding try_once
  retry_rpc_addr [] = none
  retry_rpc_addr (a ∷ rest) = elim (try_once a) [
    | err e ↦ some (err e)
    | ok none ↦ retry_rpc_addr rest
    | ok (some r) ↦ some (ok r)
  ]

  -- the `catch` of `retryHelper`; `none` for the default that is no default
  pub use_default : Option R → Result Cancelled R → Result Cancelled R
  use_default default_if_cancelled (ok r) = ok r
  use_default (some d) (err cancel_use_default) = ok d
  use_default none (err e) = err e

  pub retry_helper : Option R → List (Attempt Output) → Option (Result Cancelled R)
  retry_helper default_if_cancelled as' =
      Option.map (use_default default_if_cancelled) (retry_rpc_addr as')

  -- A try that goes on to the next: nobody cancelled, and no value came back.
  abbrev pub IsFruitless : Attempt Output → Type 0
  IsFruitless a = (a.cancelled_before ≡ false) × (a.cancelled_after ≡ false) × (parsed a.ret ≡ none)

  retry_rpc_addr-append :
      (as' bs : List (Attempt Output))
      → All IsFruitless as'
      → retry_rpc_addr (as' ++ bs) ≡ retry_rpc_addr bs
  unfolding retry_rpc_addr
  retry_rpc_addr-append [] bs h = refl
  retry_rpc_addr-append (a ∷ as') bs h = ground (arith, retry_rpc_addr-append as' bs h.1)

  -- The loop goes on over every fruitless try, and returns the first value that a try gives.
  pub retry_helper_first :
      (d : Option R) (as' bs : List (Attempt Output)) (a : Attempt Output) (r : R)
      → All IsFruitless as'
      → a.cancelled_before ≡ false
      → a.cancelled_after ≡ false
      → parsed a.ret ≡ some r
      → retry_helper d (as' ++ a ∷ bs) ≡ some (ok r)
  unfolding retry_helper retry_rpc_addr use_default
  retry_helper_first d as' bs a r h b c p = rw (retry_rpc_addr-append as' (a ∷ bs) h) (ground arith)

  -- A cancellation in the first try that is not fruitless ends the loop with the default, if the
  -- caller gave one, and is thrown otherwise; what the helper printed then does not matter.
  retry_helper_cancelled :
      (d : Option R) (as' bs : List (Attempt Output)) (a : Attempt Output)
      → All IsFruitless as'
      → (a.cancelled_before ≡ true) ⊎ (a.cancelled_after ≡ true)
      → retry_helper d (as' ++ a ∷ bs)
        ≡ some (elim d [ none ↦ err cancel_use_default | some v ↦ ok v ])
  unfolding retry_helper retry_rpc_addr use_default
  retry_helper_cancelled d as' bs a h c = rw (retry_rpc_addr-append as' (a ∷ bs) h) (ground arith)
