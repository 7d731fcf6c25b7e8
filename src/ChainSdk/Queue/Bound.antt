-- ===== src/ChainSdk/Queue/Bound.antt =====
-- `queuedHelper` of lib/ag-solo/chain-cosmos-sdk.js with a bound, as `getMailbox` uses it.
use cosmic_swingset.ChainSdk.Queue.{
  running, Queue, empty, cancel, pop, cancel_excess, push, enqueue, CanStart, start, enqueued,
  started, Reach, here, next,
}
use cosmic_swingset.Base.{
  length, length-append, ℕ, zero, suc, ◌+◌, ◌-◌, ◌≤◌, ◌<◌, ◌≡◌, refl, ap, some, List, [], ◌∷◌,
  arith,
}

length-pop : (i : ℕ) (is : List ℕ) → length (pop i is).0 ≡ length is
length-pop i [] = refl
length-pop i (j ∷ js) = ap suc (length-pop j js)

-- With enough fuel the loop ends by its test.
length-cancel_excess :
    (fuel max_queued : ℕ) (q : Queue) (ws : List ℕ)
    → length ws ≤ fuel
    → length (cancel_excess fuel max_queued (record q { waiters = ws })).waiters ≤ max_queued - 1
unfolding cancel_excess
length-cancel_excess zero m q [] h = omega arith
length-cancel_excess zero m q (i ∷ is) h = absurd (omega arith)
length-cancel_excess (suc fuel) m q [] h = omega arith
length-cancel_excess (suc fuel) m q (i ∷ is) h = ground (
  arith,
  length-pop i is,
  length-cancel_excess fuel m (cancel (pop i is).1 (record q { waiters = (pop i is).0 }))
      (pop i is).0,
)

length-push :
    (q : Queue) (ws : List ℕ) → length (push (record q { waiters = ws })).waiters ≡ length ws + 1
unfolding push
length-push q [] = omega arith
length-push q (i ∷ is) = omega (arith, length-append is (q.next ∷ []))

-- After a call with a bound of at least one, the queue holds at most that many entries.
pub enqueue-le :
    (max_queued : ℕ) (q : Queue)
    → 0 < max_queued
    → length (enqueue (some max_queued) q).waiters ≤ max_queued
unfolding enqueue
enqueue-le m q h =
    let q' : Queue = cancel_excess (length q.waiters) m q in
    let small : length q'.waiters ≤ m - 1 =
      length-cancel_excess (length q.waiters) m q q.waiters (omega arith) in
    omega (arith, length-push q' q'.waiters, small)

-- The first `n` calls are all that were made, and their helpers run.
abbrev AllRun : ℕ → Queue → Type 0
AllRun n q =
    (q.next ≡ n) × (length q.waiters ≤ 1) × ((i : ℕ) → i < n → (q.entries i).phase ≡ running)

-- one more call: it cancels the last, and can start at once
one_more :
    (n : ℕ) (q : Queue) (ws : List ℕ)
    → AllRun n (record q { waiters = ws })
    → let r : Queue = enqueue (some 1) (record q { waiters = ws }) in
      CanStart n r × AllRun (suc n) (start n r)
unfolding enqueue cancel_excess push start
one_more n q [] a = (ground arith, (omega (arith, a.0), omega arith, λ i lt. ground (arith, a.2 i)))
one_more n q (w ∷ []) a =
    (ground arith, (omega (arith, a.0), omega arith, λ i lt. ground (arith, a.2 i)))
one_more n q (w ∷ x ∷ ws) a = absurd (omega (arith, a.1))

crowd : (n : ℕ) → (q : Queue) × Reach (some 1) q × AllRun n q
unfolding start
crowd zero = (empty, here, (refl, omega arith, λ i lt. absurd (omega arith)))
crowd (suc n) =
    let (q, r, a) = crowd n in
    let (can, more) = one_more n q q.waiters a in
    (
      start n (enqueue (some 1) q),
      next (next r (enqueued refl)) (started n (omega (arith, more.0)) can refl),
      more,
    )

-- The bound does not keep helpers from running at the same time: for every number, a queue that is
-- bounded by one can come to a state with that many helpers that run.
pub bounded_overlap :
    (n : ℕ) → (q : Queue) × Reach (some 1) q × ((i : ℕ) → i < n → (q.entries i).phase ≡ running)
bounded_overlap n = let (q, r, a) = crowd n in (q, r, a.2)
