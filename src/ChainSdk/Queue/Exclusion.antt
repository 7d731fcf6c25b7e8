-- ===== src/ChainSdk/Queue/Exclusion.antt =====
-- `queuedHelper` of lib/ag-solo/chain-cosmos-sdk.js without a bound, as `deliver` uses it.
use cosmic_swingset.ChainSdk.Queue.{
  Phase, waiting, running, settled, Entry, Queue, fresh, empty, update, proceed, push, enqueue,
  CanStart, start, CanSettle, wake_first, settle, Step, enqueued, started, settled_by, Reach, here,
  next,
}
use cosmic_swingset.Base.{
  nat_beq_iff, All, All-append, All-weaken, ℕ, ◌-◌, ◌≤◌, ◌<◌, ◌≡◌, refl, sym, ◌∙◌, ◌≢◌, ◌⊎◌, inl,
  inr, true, false, none, List, [], ◌∷◌, arith,
}
use cosmic_swingset.Base.Sort.{IsIncreasing, IsIncreasing-append}

abbrev pub IsFirst : ℕ → List ℕ → Type 0
IsFirst i [] = ⊥
IsFirst i (j ∷ _) = i ≡ j

-- The state of a queue on which nothing is ever cancelled.
record IsValid (q : Queue) : Type 0 where
  ascending : IsIncreasing q.waiters
  made : All (λ i. i < q.next) q.waiters
  calm : (i : ℕ) → (q.entries i).cancelled ≡ false
  -- only the first is awake
  first : (i : ℕ) → (q.entries i).woken ≡ true → (q.entries i).phase ≢ settled → IsFirst i q.waiters
  awake : (i : ℕ) → IsFirst i q.waiters → (q.entries i).woken ≡ true
  -- a run was woken before
  ran : (i : ℕ) → (q.entries i).phase ≡ running → (q.entries i).woken ≡ true
  pending : All (λ i. (q.entries i).phase ≢ settled) q.waiters
  unmade : (i : ℕ) → q.next ≤ i → q.entries i ≡ fresh

empty-IsValid : IsValid empty
empty-IsValid = record {
  ascending = tt;
  made = tt;
  calm = λ i. refl;
  first = λ i w p. cc;
  awake = λ i f. absurd f;
  ran = λ i p. cc;
  pending = tt;
  unmade = λ i h. refl;
}

start-IsValid : (i : ℕ) (q : Queue) → CanStart i q → i < q.next → IsValid q → IsValid (start i q)
unfolding start
start-IsValid i q c lt v = record {
  ascending = v.ascending;
  made = v.made;
  calm = λ j. ground (arith, v.calm j, v.calm i);
  first = λ j w p. ground (arith, v.first j, v.first i);
  awake = λ j f. ground (arith, v.awake j f);
  ran = λ j p. ground (arith, v.ran j);
  pending = All-weaken _ _ (λ j p. ground arith) q.waiters v.pending;
  unmade = λ j h. ground (arith, v.unmade j h);
}

abbrev with_waiters : Queue → List ℕ → Queue
with_waiters q ws = record q { waiters = ws }

push-pending :
    (q : Queue) (ws : List ℕ)
    → All (λ i. i < q.next) ws
    → All (λ i. (q.entries i).phase ≢ settled) ws
    → All (λ i. (update q.next fresh q.entries i).phase ≢ settled) ws
push-pending q [] m p = tt
push-pending q (i ∷ is) m p = (ground arith, push-pending q is m.1 p.1)

-- by cases on the queue
push-IsValid :
    (q : Queue) (ws : List ℕ) → IsValid (with_waiters q ws) → IsValid (push (with_waiters q ws))
unfolding push
push-IsValid q [] v = record {
  ascending = (tt, tt);
  made = (omega arith, tt);
  calm = λ j. ground (arith, v.calm j);
  first = λ j w p. ground (arith, v.first j);
  awake = λ j f. ground arith;
  ran = λ j p. ground (arith, v.ran j);
  pending = (ground arith, tt);
  unmade = λ j h. ground (arith, v.unmade j);
}
push-IsValid q (i ∷ is) v = record {
  ascending =
      IsIncreasing-append (q.next - 1) (i ∷ is) (q.next ∷ []) v.ascending
        (All-weaken _ _ (λ j p. omega arith) (i ∷ is) v.made) (tt, tt) (omega (arith, v.made), tt);
  made =
      All-append _ (i ∷ is) (q.next ∷ []) (All-weaken _ _ (λ j p. omega arith) (i ∷ is) v.made)
        (omega arith, tt);
  calm = λ j. ground (arith, v.calm j);
  first = λ j w p. ground (arith, v.first j);
  awake = λ j f. ground (arith, v.awake j f, v.made);
  ran = λ j p. ground (arith, v.ran j);
  pending =
      All-append _ (i ∷ is) (q.next ∷ []) (push-pending q (i ∷ is) v.made v.pending)
        (ground arith, tt);
  unmade = λ j h. ground (arith, v.unmade j);
}

-- Only the first can settle.
settle-IsFirst :
    (i : ℕ) (q : Queue) (ws : List ℕ)
    → CanSettle i (with_waiters q ws)
    → IsValid (with_waiters q ws)
    → IsFirst i ws
settle-IsFirst i q ws (inl c) v = v.first i (v.ran i c) (λ e. cc)
settle-IsFirst i q ws (inr c) v = absurd (ground (arith, v.calm i))

abbrev done : ℕ → Queue → List ℕ → Queue
done i q ws = record q {
  entries = update i (record (q.entries i) { phase = settled }) q.entries;
  waiters = ws;
}

settle_first :
    (i : ℕ) (q : Queue) (ws : List ℕ)
    → settle i (with_waiters q (i ∷ ws)) ≡ wake_first (done i q ws) ws
unfolding settle
settle_first i q ws = rw ((nat_beq_iff i i).1 refl)

done-pending :
    (i : ℕ) (q : Queue) (ws : List ℕ)
    → All (λ j. i < j) ws
    → All (λ j. (q.entries j).phase ≢ settled) ws
    → All (λ j. ((done i q ws).entries j).phase ≢ settled) ws
done-pending i q [] m p = tt
done-pending i q (j ∷ js) m p = (ground arith, done-pending i q js m.1 p.1)

proceed-pending :
    (k : ℕ) (e : ℕ → Entry) (ws : List ℕ)
    → All (λ j. (e j).phase ≢ settled) ws
    → All (λ j. (update k (record (e k) { woken = true }) e j).phase ≢ settled) ws
proceed-pending k e [] p = tt
proceed-pending k e (j ∷ js) p = (ground arith, proceed-pending k e js p.1)

done-IsValid :
    (i : ℕ) (q : Queue) (ws : List ℕ)
    → IsValid (with_waiters q (i ∷ ws))
    → IsValid (wake_first (done i q ws) ws)
unfolding proceed
done-IsValid i q [] v = record {
  ascending = tt;
  made = tt;
  calm = λ j. ground (arith, v.calm j, v.calm i);
  first = λ j w p. ground (arith, v.first j);
  awake = λ j f. absurd f;
  ran = λ j p. ground (arith, v.ran j);
  pending = tt;
  unmade = λ j h. ground (arith, v.unmade j, v.made);
}
done-IsValid i q (k ∷ ks) v = record {
  ascending = v.ascending.1;
  made = v.made.1;
  calm = λ j. ground (arith, v.calm j, v.calm i, v.calm k);
  first = λ j w p. ground (arith, v.first j);
  awake = λ j f. ground arith;
  ran = λ j p. ground (arith, v.ran j);
  pending =
      proceed-pending k (done i q (k ∷ ks)).entries (k ∷ ks)
        (done-pending i q (k ∷ ks) v.ascending.0 v.pending.1);
  unmade = λ j h. ground (arith, v.unmade j, v.made);
}

settle-IsValid :
    (i : ℕ) (q : Queue) (ws : List ℕ)
    → CanSettle i (with_waiters q ws)
    → IsValid (with_waiters q ws)
    → IsValid (settle i (with_waiters q ws))
settle-IsValid i q [] c v = absurd (settle-IsFirst i q [] c v)
settle-IsValid i q (j ∷ js) c v =
    let same : i ≡ j = settle-IsFirst i q (j ∷ js) c v in
    rw (same, settle_first) (done-IsValid j q js v)

Step-IsValid : {q r : Queue} → Step none q r → IsValid q → IsValid r
Step-IsValid (enqueued {q} e) v = rw e (unfold enqueue in push-IsValid q q.waiters v)
Step-IsValid (started {q} i lt c e) v = rw e (start-IsValid i q c lt v)
Step-IsValid (settled_by {q} i lt c e) v = rw e (settle-IsValid i q q.waiters c v)

Reach-IsValid : {q : Queue} → Reach none q → IsValid q
Reach-IsValid here = empty-IsValid
Reach-IsValid (next r st) = Step-IsValid st (Reach-IsValid r)

IsFirst-unique : (i j : ℕ) (ws : List ℕ) → IsFirst i ws → IsFirst j ws → i ≡ j
IsFirst-unique i j [] f g = absurd f
IsFirst-unique i j (k ∷ ks) f g = f ∙ sym g

-- On a queue without a bound, as the deliveries use, at most one helper runs at any time.
pub one_runs_at_a_time :
    (q : Queue) (i j : ℕ)
    → Reach none q
    → (q.entries i).phase ≡ running
    → (q.entries j).phase ≡ running
    → i ≡ j
one_runs_at_a_time q i j r p s =
    let v : IsValid q = Reach-IsValid r in
    IsFirst-unique i j q.waiters (v.first i (v.ran i p) (λ e. cc)) (v.first j (v.ran j s) (λ e. cc))

-- A call whose helper runs has been made, and nothing in the queue is older.
pub runs_first :
    (q : Queue) (i : ℕ)
    → Reach none q
    → (q.entries i).phase ≡ running
    → All (λ j. i ≤ j) q.waiters × (i < q.next)
runs_first q i r p =
    let v : IsValid q = Reach-IsValid r in
    let f : IsFirst i q.waiters = v.first i (v.ran i p) (λ e. cc) in
    (oldest i q.waiters f v.ascending, made i q.waiters f v.made)
  where
    oldest : (k : ℕ) (ws : List ℕ) → IsFirst k ws → IsIncreasing ws → All (λ j. k ≤ j) ws
    oldest k [] f h = tt
    oldest k (w ∷ ws) f h = (omega (arith, f), All-weaken _ _ (λ j lt. omega (arith, lt, f)) ws h.0)

    made : (k : ℕ) (ws : List ℕ) → IsFirst k ws → All (λ j. j < q.next) ws → k < q.next
    made k [] f h = absurd f
    made k (w ∷ ws) f h = omega (arith, f, h.0)

-- No wake-up is lost: in a queue that is not empty, the first can start, or its helper runs.
pub first_can_go :
    (q : Queue) (i : ℕ)
    → Reach none q
    → IsFirst i q.waiters
    → CanStart i q ⊎ ((q.entries i).phase ≡ running)
first_can_go q i r f =
    let v : IsValid q = Reach-IsValid r in
    go (q.entries i).phase refl (pending q.waiters f v.pending) v
  where
    pending :
        (ws : List ℕ)
        → IsFirst i ws
        → All (λ j. (q.entries j).phase ≢ settled) ws
        → (q.entries i).phase ≢ settled
    pending [] g h = absurd g
    pending (w ∷ ws) g h = rw g h.0

    go :
        (p : Phase)
        → (q.entries i).phase ≡ p
        → (q.entries i).phase ≢ settled
        → IsValid q
        → CanStart i q ⊎ ((q.entries i).phase ≡ running)
    go waiting e n v = inl (e, v.awake i f, v.calm i)
    go running e n v = inr e
    go settled e n v = absurd (n e)
