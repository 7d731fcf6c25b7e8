-- ===== src/Setup/Status.antt =====
-- `waitForStatus` of setup/main.js, with `needDoRun` of setup/run.js: the tries that happen, in order,
-- each with the exit code and the output of the playbook.
use cosmic_swingset.Base.{
  nat_beq, if◌then◌else◌, Bool-cases, length, All, ℕ, suc, ◌+◌, ◌≡◌, ap, ◌∙◌, inl, inr, Option,
  none, some, List, [], ◌∷◌, ◌++◌, arith,
}
use cosmic_swingset.Base.Text.{Text}

pub record Try : Type 0 where
  pub output : Text
  pub code : ℕ

pub data Ending (A : Type 0) : Type 0 where
  accepted : A → Ending A
  -- `Aborted with exit code`
  aborted : ℕ → Ending A

module _ {A : Type 0} (accept : Text → ℕ → Option A) where
  -- from a value of `retryNum` on, with its last value; `none` while no try has ended the loop
  unfoldable pub wait_from : ℕ → List Try → Option (ℕ × Ending A)
  wait_from n [] = none
  wait_from n (t ∷ ts) =
      let later = wait_from (n + 1) ts in
      if nat_beq t.code 0
      then elim (accept t.output t.code) [ none ↦ later | some a ↦ some (n, accepted a) ]
      else some (n, aborted t.code)

  unfoldable pub wait_for_status : List Try → Option (ℕ × Ending A)
  unfolding wait_from
  wait_for_status ts = wait_from 0 ts

  -- A try whose playbook ran, and whose output is not accepted.
  abbrev pub IsPending : Try → Type 0
  IsPending t = (t.code ≡ 0) × (accept t.output 0 ≡ none)

  wait_from-append :
      (n : ℕ) (as' bs : List Try)
      → All IsPending as'
      → wait_from n (as' ++ bs) ≡ wait_from (n + length as') bs
  unfolding wait_from
  wait_from-append n [] bs h = let e : n ≡ n + 0 = omega arith in ap (λ k. wait_from k bs) e
  wait_from-append n (t ∷ as') bs h =
      let e : n + 1 + length as' ≡ n + suc (length as') = omega arith in
      rw (h.0.0, h.0.1) (wait_from-append (n + 1) as' bs h.1) ∙ ap (λ k. wait_from k bs) e

  -- The loop passes over every pending try and ends at the next one, whose output is accepted: with
  -- the value of that, or with the exit code if its playbook failed; the number of retries is that of
  -- the pending tries.
  wait_for_status-ends :
      (as' bs : List Try) (t : Try) (a : A)
      → All IsPending as'
      → accept t.output 0 ≡ some a
      → wait_for_status (as' ++ t ∷ bs)
        ≡ some (length as', if nat_beq t.code 0 then accepted a else aborted t.code)
  unfolding wait_for_status
  wait_for_status-ends as' bs t a h output_accepted =
      let e : 0 + length as' ≡ length as' = omega arith in
      let start = wait_from-append 0 as' (t ∷ bs) h ∙ ap (λ k. wait_from k (t ∷ bs)) e in
      start ∙ (elim (Bool-cases (nat_beq t.code 0)) [
        | inl z ↦ unfold wait_from in ground (arith, z, output_accepted)
        | inr z ↦ unfold wait_from in ground (arith, z)
      ])
