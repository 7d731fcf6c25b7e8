-- ===== src/ChainSdk/Queue/Tests.antt =====
-- Runs of a queue of lib/ag-solo/chain-cosmos-sdk.js.
use cosmic_swingset.ChainSdk.Queue.{
  running, settled, Queue, empty, proceed, push, enqueue, CanStart, start, settle, enqueued,
  started, settled_by, Reach, here, next,
}
use cosmic_swingset.ChainSdk.Queue.Exclusion.{one_runs_at_a_time, first_can_go}
use cosmic_swingset.ChainSdk.Queue.Order.{runs_in_order}
use cosmic_swingset.ChainSdk.Queue.Bound.{enqueue-le, bounded_overlap}
use cosmic_swingset.Base.{length, ℕ, ◌≤◌, ◌≡◌, refl, ◌⊎◌, inl, ◌<◌, true, false, none, some, arith}

-- Two calls, and the helper of the first runs.
abbrev two_calls : Queue
two_calls = start 0 (enqueue none (enqueue none empty))

reached : Reach none two_calls
unfolding enqueue push proceed
reached =
    next (next (next here (enqueued refl)) (enqueued refl))
      (started 0 (omega arith) (refl, refl, refl) refl)

one_runs_at_a_time_example : ◌≡◌ {A = ℕ} 0 0
unfolding enqueue push proceed start
one_runs_at_a_time_example = one_runs_at_a_time two_calls 0 0 reached refl refl

-- The first has settled, and the helper of the second runs.
abbrev second_call : Queue
second_call = start 1 (settle 0 two_calls)

reached_second : Reach none second_call
unfolding enqueue push proceed start settle
reached_second =
    next (next reached (settled_by 0 (omega arith) (inl refl) refl))
      (started 1 (omega arith) (refl, refl, refl) refl)

runs_in_order_example : (second_call.entries 0).phase ≡ settled
unfolding enqueue push proceed start settle
runs_in_order_example = runs_in_order second_call 1 0 reached_second refl (omega arith)

first_can_go_example : CanStart 0 two_calls ⊎ ((two_calls.entries 0).phase ≡ running)
unfolding enqueue push proceed start
first_can_go_example = first_can_go two_calls 0 reached refl

-- The second call waits, and starts when the first has settled.
second_waits :
    ((two_calls.entries 1).woken ≡ false) × (((settle 0 two_calls).entries 1).woken ≡ true)
unfolding enqueue push proceed start settle
second_waits = (refl, refl)

enqueue-le_example : length (enqueue (some 1) two_calls).waiters ≤ 1
enqueue-le_example = enqueue-le 1 two_calls (omega arith)

bounded_overlap_example :
    (q : Queue) × Reach (some 1) q × ((i : ℕ) → i < 3 → (q.entries i).phase ≡ running)
bounded_overlap_example = bounded_overlap 3
