-- ===== src/ChainSdk/Queue/Order.antt =====
-- The order of the calls of `queuedHelper` in lib/ag-solo/chain-cosmos-sdk.js without a bound: a call
-- leaves the queue only when it settles.
use mathlib.Core.Path.{subst}
use cosmic_swingset.ChainSdk.Queue.{
  Phase, waiting, running, settled, Queue, CanStart, proceed, push, enqueue, start, wake_first,
  remove, settle, Step, enqueued, started, settled_by, Reach, here, next,
}
use cosmic_swingset.ChainSdk.Queue.Exclusion.{runs_first}
use cosmic_swingset.Base.{
  Bool-cases, ◌==◌, All, nat_eq, string_eq, list_eq, ℕ, ◌≤◌, ◌<◌, ◌≡◌, refl, sym, ◌≢◌, ◌⊎◌, inl,
  inr, true, none, List, [], ◌∷◌, ◌++◌, arith,
}

abbrev IsIn : ℕ → List ℕ → Type 0
IsIn i [] = ⊥
IsIn i (j ∷ js) = (i ≡ j) ⊎ IsIn i js

IsIn-old : (i : ℕ) (xs ys : List ℕ) → IsIn i xs → IsIn i (xs ++ ys)
IsIn-old i [] ys h = absurd h
IsIn-old i (x ∷ xs) ys (inl e) = inl e
IsIn-old i (x ∷ xs) ys (inr h) = inr (IsIn-old i xs ys h)

IsIn-last : (i : ℕ) (xs : List ℕ) → IsIn i (xs ++ i ∷ [])
IsIn-last i [] = inl refl
IsIn-last i (x ∷ xs) = inr (IsIn-last i xs)

IsIn-remove : (i j : ℕ) (xs : List ℕ) → j ≢ i → IsIn j xs → IsIn j (remove i xs)
IsIn-remove i j [] ne h = absurd h
IsIn-remove i j (x ∷ xs) ne h = elim (Bool-cases (x == i)) [
  | inl e ↦ rw e (behind e h)
  | inr e ↦ rw e (within (IsIn-remove i j xs ne) h)
]
  where
    behind : (x == i) ≡ true → (j ≡ x) ⊎ IsIn j xs → IsIn j xs
    behind e (inl f) = absurd (ground (arith, e, f, ne))
    behind e (inr g) = g

    within : {A B : Type 0} → (A → B) → (j ≡ x) ⊎ A → (j ≡ x) ⊎ B
    within k (inl f) = inl f
    within k (inr g) = inr (k g)

All-IsIn : (P : ℕ → Type 0) (j : ℕ) (xs : List ℕ) → All P xs → IsIn j xs → P j
All-IsIn P j [] h m = absurd m
All-IsIn P j (x ∷ xs) h (inl e) = rw e h.0
All-IsIn P j (x ∷ xs) h (inr m) = All-IsIn P j xs h.1 m

-- Every call that was made and has not settled is in the queue.
record IsQueued (q : Queue) : Type 0 where
  queued : (j : ℕ) → j < q.next → (q.entries j).phase ≢ settled → IsIn j q.waiters

push-IsQueued :
    (q : Queue) (ws : List ℕ)
    → IsQueued (record q { waiters = ws })
    → IsQueued (push (record q { waiters = ws }))
unfolding push proceed
push-IsQueued q [] v = record {
  queued = λ j lt p. elim (Bool-cases (j == q.next)) [
    | inl e ↦ inl (ground (arith, e))
    | inr e ↦ absurd (v.queued j (ground (arith, e, lt)) (ground (arith, e, p)))
  ];
}
push-IsQueued q (i ∷ is) v = record {
  queued = λ j lt p. elim (Bool-cases (j == q.next)) [
    | inl e ↦
        let same : j ≡ q.next = ground (arith, e) in
        subst (λ k. IsIn k ((i ∷ is) ++ q.next ∷ [])) (sym same) (IsIn-last q.next (i ∷ is))
    | inr e ↦
        IsIn-old j (i ∷ is) (q.next ∷ [])
          (v.queued j (ground (arith, e, lt)) (ground (arith, e, p)))
  ];
}

start-IsQueued : (i : ℕ) (q : Queue) → CanStart i q → IsQueued q → IsQueued (start i q)
unfolding start
start-IsQueued i q c v = record { queued = λ j lt p. v.queued j lt (ground (arith, p, c)) }

wake_first-IsQueued : (q : Queue) (ws : List ℕ) → IsQueued q → IsQueued (wake_first q ws)
unfolding proceed
wake_first-IsQueued q [] v = v
wake_first-IsQueued q (i ∷ is) v = record { queued = λ j lt p. v.queued j lt (ground (arith, p)) }

settle-IsQueued : (i : ℕ) (q : Queue) → IsQueued q → IsQueued (settle i q)
unfolding settle
settle-IsQueued i q v = wake_first-IsQueued _ (remove i q.waiters) (record {
  queued =
      λ j lt p. IsIn-remove i j q.waiters (ground (arith, p)) (v.queued j lt (ground (arith, p)));
})

Step-IsQueued : {q r : Queue} → Step none q r → IsQueued q → IsQueued r
Step-IsQueued (enqueued {q} e) v = rw e (unfold enqueue in push-IsQueued q q.waiters v)
Step-IsQueued (started {q} i lt c e) v = rw e (start-IsQueued i q c v)
Step-IsQueued (settled_by {q} i lt c e) v = rw e (settle-IsQueued i q v)

Reach-IsQueued : {q : Queue} → Reach none q → IsQueued q
Reach-IsQueued here = record { queued = λ j lt p. absurd (omega arith) }
Reach-IsQueued (next r st) = Step-IsQueued st (Reach-IsQueued r)

-- On a queue without a bound the calls run in the order in which they were made: when the helper of a
-- call runs, every earlier call has settled.
pub runs_in_order :
    (q : Queue) (i j : ℕ)
    → Reach none q
    → (q.entries i).phase ≡ running
    → j < i
    → (q.entries j).phase ≡ settled
runs_in_order q i j r p lt = by_phase (q.entries j).phase refl
  where
    queued_none : (q.entries j).phase ≢ settled → ⊥
    queued_none ne =
        let (oldest, made) = runs_first q i r p in
        let v : IsQueued q = Reach-IsQueued r in
        omega (
          arith,
          lt,
          All-IsIn (λ k. i ≤ k) j q.waiters oldest (v.queued j (omega (arith, lt, made)) ne),
        )

    by_phase : (s : Phase) → (q.entries j).phase ≡ s → (q.entries j).phase ≡ settled
    by_phase waiting e = absurd (queued_none (λ f. cc))
    by_phase running e = absurd (queued_none (λ f. cc))
    by_phase settled e = e
