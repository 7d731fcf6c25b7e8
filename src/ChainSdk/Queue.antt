-- ===== src/ChainSdk/Queue.antt =====
-- `queuedHelper` of lib/ag-solo/chain-cosmos-sdk.js: one queue of `queued`, its entries known by the
-- order in which they were made. An entry that was popped lives on in its closure, so the entries
-- are kept apart from the queue.
pub mod Exclusion
pub mod Order
pub mod Bound
mod Tests
use cosmic_swingset.Base.{
  leb, if◌then◌else◌, length, ◌==◌, nat_eq, string_eq, list_eq, ℕ, zero, suc, ◌+◌, ◌<◌, ◌≡◌, ◌⊎◌,
  Bool, true, false, Option, none, some, List, [], ◌∷◌, ◌++◌,
}

-- where the call stands: before `await wait`, in the helper (or between two tries of it), or done
pub data Phase : Type 0 where
  waiting running settled : Phase

-- The variables of one call: `resolveWait` was called, and `cancelled`.
pub record Entry : Type 0 where
  pub woken : Bool
  pub cancelled : Bool
  pub phase : Phase

pub record Queue : Type 0 where
  pub entries : ℕ → Entry
  pub next : ℕ
  pub waiters : List ℕ

abbrev pub fresh : Entry
fresh = record { woken = false; cancelled = false; phase = waiting }

abbrev pub empty : Queue
empty = record { entries = λ _. fresh; next = 0; waiters = [] }

abbrev pub update : ℕ → Entry → (ℕ → Entry) → ℕ → Entry
update i e f j = if j == i then e else f j

-- `proceed()` of an entry
pub proceed : ℕ → Queue → Queue
proceed i q = record q { entries = update i (record (q.entries i) { woken = true }) q.entries }

-- `cancel()` of an entry
pub cancel : ℕ → Queue → Queue
cancel i q = record q {
  entries = update i (record (q.entries i) { cancelled = true; woken = true }) q.entries;
}

-- `queue.pop()`, on a queue that is not empty
abbrev pub pop : ℕ → List ℕ → List ℕ × ℕ
pop i [] = ([], i)
pop i (j ∷ js) = let (rest, last) = pop j js in (i ∷ rest, last)

-- the loop that cancels the excess, on the number of entries that it may pop
pub cancel_excess : ℕ → ℕ → Queue → Queue
unfolding cancel
cancel_excess zero max_queued q = q
cancel_excess (suc fuel) max_queued q = elim q.waiters [
  | [] ↦ q
  | i ∷ is ↦ elim (leb max_queued (length (i ∷ is))) [
    | true ↦
        let (rest, last) = pop i is in
        cancel_excess fuel max_queued (cancel last (record q { waiters = rest }))
    | false ↦ q
  ]
]

-- `queue.push(qentry)`, and `proceed()` if it is the first
pub push : Queue → Queue
unfolding proceed
push q = elim q.waiters [
  | [] ↦
      proceed q.next (record {
        entries = update q.next fresh q.entries;
        next = q.next + 1;
        waiters = q.next ∷ [];
      })
  | i ∷ is ↦ record {
    entries = update q.next fresh q.entries;
    next = q.next + 1;
    waiters = (i ∷ is) ++ q.next ∷ [];
  }
]

-- a call of `queuedHelper`, up to its first `await`
pub enqueue : Option ℕ → Queue → Queue
enqueue none q = push q
enqueue (some max_queued) q = push (cancel_excess (length q.waiters) max_queued q)

-- `await wait` is over and `cancelled` is not set: the helper is run
abbrev pub CanStart : ℕ → Queue → Type 0
CanStart i q =
    ((q.entries i).phase ≡ waiting)
    × ((q.entries i).woken ≡ true)
    × ((q.entries i).cancelled ≡ false)

pub start : ℕ → Queue → Queue
start i q = record q { entries = update i (record (q.entries i) { phase = running }) q.entries }

-- the helper has returned or thrown, or a cancelled call has been woken
abbrev pub CanSettle : ℕ → Queue → Type 0
CanSettle i q =
    ((q.entries i).phase ≡ running)
    ⊎ (((q.entries i).phase ≡ waiting)
        × ((q.entries i).woken ≡ true)
        × ((q.entries i).cancelled ≡ true))

-- `queue.splice(queue.indexOf(qentry), 1)`, or nothing where it is not in the queue
abbrev pub remove : ℕ → List ℕ → List ℕ
remove i [] = []
remove i (j ∷ js) = if j == i then js else j ∷ remove i js

abbrev pub wake_first : Queue → List ℕ → Queue
wake_first q [] = q
wake_first q (i ∷ _) = proceed i q

-- the `finally` block
pub settle : ℕ → Queue → Queue
unfolding proceed
settle i q =
    let q' : Queue = record q {
      entries = update i (record (q.entries i) { phase = settled }) q.entries;
      waiters = remove i q.waiters;
    } in
    wake_first q' q'.waiters

-- What can happen to a queue on which every call passes the same `maxQueued`.
pub data Step (max_queued : Option ℕ) : Queue → Queue → Type 0 where
  enqueued : {q r : Queue} → r ≡ enqueue max_queued q → Step max_queued q r
  started : {q r : Queue} (i : ℕ) → i < q.next → CanStart i q → r ≡ start i q → Step max_queued q r
  settled_by :
      {q r : Queue} (i : ℕ) → i < q.next → CanSettle i q → r ≡ settle i q → Step max_queued q r

pub data Reach (max_queued : Option ℕ) : Queue → Type 0 where
  here : Reach max_queued empty
  next : {q r : Queue} → Reach max_queued q → Step max_queued q r → Reach max_queued r
