-- ===== src/Outbound/Once.antt =====
-- lib/ag-solo/outbound.js: the message numbers that a target's deliverator is given over a run.
use mathlib.Core.List.{append_assoc, append-nil}
use mathlib.Core.Path.{subst}
use cosmic_swingset.Outbound.{
  Target, Mailbox, Call, State, number, is_empty, new_messages, send, deliver_one, deliver,
  add_delivery_target,
}
use cosmic_swingset.Outbound.Numbers.{
  highest_after, new_messages-above, highest_after-ge, new_messages-le, new_messages-IsStrict,
}
use cosmic_swingset.Base.{
  if◌then◌else◌, Bool-cases, Option-cases, All, All-append, All-weaken, ok, ◌==◌, ==_iff, nat_eq,
  string_eq, list_eq, ℕ, ◌≤◌, ◌<◌, String, ◌≡◌, refl, ◌⊎◌, inl, inr, not, ◌||◌, Option, none, some,
  List, [], ◌∷◌, ◌++◌, map, arith,
}
use cosmic_swingset.Base.Dict.{Dict, lookup, contains, insert, lookup-insert, contains_iff_lookup}
use cosmic_swingset.Base.Sort.{IsStrict, IsDistinct, IsIncreasing, IsIncreasing-append}

-- What was sent to an unknown target is nothing; to a known one, increasing numbers, none above
-- its `highestSent`.
abbrev pub InOrderAt : Option Target → List ℕ → Type 0
InOrderAt none ns = ns ≡ []
InOrderAt (some t) ns = IsIncreasing ns × All (λ n. n ≤ t.highest_sent) ns

IsIncreasing-of_InOrderAt : (o : Option Target) (ns : List ℕ) → InOrderAt o ns → IsIncreasing ns
IsIncreasing-of_InOrderAt none ns h = rw h tt
IsIncreasing-of_InOrderAt (some t) ns h = h.0

module _ {B : Type 0} where
  -- The numbers of all messages that the deliverator of a target was given, in order.
  abbrev pub numbers_to : String → List (Call B) → List ℕ
  numbers_to k [] = []
  numbers_to k (c ∷ cs) =
      if c.target == k then map number c.messages ++ numbers_to k cs else numbers_to k cs

  numbers_to-append :
      (k : String) (cs ds : List (Call B))
      → numbers_to k (cs ++ ds) ≡ numbers_to k cs ++ numbers_to k ds
  numbers_to-append k [] ds = refl
  numbers_to-append k (c ∷ cs) ds = ground (
    arith,
    numbers_to-append k cs ds,
    append_assoc (map number c.messages) (numbers_to k cs) (numbers_to k ds),
  )

  numbers_to-concat :
      (k : String) (cs : List (Call B)) (c : Call B)
      → numbers_to k (cs ++ c ∷ [])
        ≡ (if c.target == k then numbers_to k cs ++ map number c.messages else numbers_to k cs)
  numbers_to-concat k cs c = ground (
    arith,
    numbers_to-append k cs (c ∷ []),
    append-nil (map number c.messages),
    append-nil (numbers_to k cs),
  )

  abbrev pub IsInOrder : String → State B → Type 0
  IsInOrder k s = InOrderAt (lookup k s.known_targets) (numbers_to k s.calls)

  All-numbers :
      (P : ℕ → Type 0) (ms : List (ℕ × B)) → All (λ m. P (number m)) ms → All P (map number ms)
  All-numbers P [] h = tt
  All-numbers P (m ∷ ms) h = (h.0, All-numbers P ms h.1)

  IsIncreasing-numbers : (ms : List (ℕ × B)) → IsStrict number ms → IsIncreasing (map number ms)
  IsIncreasing-numbers [] h = tt
  IsIncreasing-numbers (m ∷ ms) h = (All-numbers (λ n. m.0 < n) ms h.0, IsIncreasing-numbers ms h.1)

  -- one call of the deliverator with the new messages
  extend-InOrder :
      (t : Target) (mb : Mailbox B) (ns : List ℕ)
      → IsDistinct number mb.outbox
      → InOrderAt (some t) ns
      → IsIncreasing (ns ++ map number (new_messages t mb))
        × All (λ n. n ≤ highest_after t mb) (ns ++ map number (new_messages t mb))
  extend-InOrder t mb ns d (inc, le) =
      let new : List (ℕ × B) = new_messages t mb in
      (
        IsIncreasing-append t.highest_sent ns (map number new) inc le
            (IsIncreasing-numbers new (new_messages-IsStrict t mb d))
            (All-numbers (λ n. t.highest_sent < n) new (new_messages-above t mb)),
        All-append _ ns (map number new)
            (All-weaken _ _ (λ n p. omega (arith, p, highest_after-ge t mb)) ns le)
            (All-numbers (λ n. n ≤ highest_after t mb) new (new_messages-le t mb)),
      )

  send-IsInOrder :
      (j k : String) (t : Target) (mb : Mailbox B) (s : State B)
      → lookup j s.known_targets ≡ some t
      → IsDistinct number mb.outbox
      → IsInOrder k s
      → IsInOrder k (send j t mb s)
  unfolding send
  send-IsInOrder j k t mb s found d h = elim (Bool-cases (j == k)) [
    | inl same ↦
        let found_k : lookup k s.known_targets ≡ some t =
          subst (λ x. lookup x s.known_targets ≡ some t) ((==_iff j k).0 same) found in
        let before : InOrderAt (some t) (numbers_to k s.calls) = rw found_k at h in
        rw (lookup-insert, numbers_to-concat, same) (extend-InOrder t mb _ d before)
    | inr other ↦ rw (lookup-insert, numbers_to-concat, other) h
  ]

  -- the two ways through the body of the loop
  deliver_one-cases :
      (j : String) (mb : Mailbox B) (s : State B)
      → (deliver_one j mb s ≡ s)
        ⊎ ((t : Target) × (lookup j s.known_targets ≡ some t)
            × (deliver_one j mb s ≡ send j t mb s))
  unfolding deliver_one
  deliver_one-cases j mb s = elim (Option-cases (lookup j s.known_targets)) [
    | inl missing ↦ inl (ground (arith, missing))
    | inr (t, found) ↦
        elim (Bool-cases
          (not (is_empty (new_messages t mb)) || not (mb.inbound_ack == t.highest_ack))) [
            | inl go ↦ inr (t, found, ground (arith, found, go))
            | inr stay ↦ inl (ground (arith, found, stay))
          ]
  ]

  deliver_one-IsInOrder :
      (j k : String) (mb : Mailbox B) (s : State B)
      → IsDistinct number mb.outbox
      → IsInOrder k s
      → IsInOrder k (deliver_one j mb s)
  deliver_one-IsInOrder j k mb s d h = elim (deliver_one-cases j mb s) [
    | inl same ↦ rw same h
    | inr (t, found, sent) ↦ rw sent (send-IsInOrder j k t mb s found d h)
  ]

  -- In a mailbox every message has its own number.
  abbrev pub AllDistinct : Dict String (Mailbox B) → Type 0
  AllDistinct [] = Unit
  AllDistinct ((_, mb) ∷ mbs) = IsDistinct number mb.outbox × AllDistinct mbs

  deliver-IsInOrder :
      (k : String) (mbs : Dict String (Mailbox B)) (s : State B)
      → AllDistinct mbs
      → IsInOrder k s
      → IsInOrder k (deliver mbs s)
  unfolding deliver
  deliver-IsInOrder k [] s d h = h
  deliver-IsInOrder k ((j, mb) ∷ mbs) s d h =
      deliver-IsInOrder k mbs (deliver_one j mb s) d.1 (deliver_one-IsInOrder j k mb s d.0 h)

  -- the state after a new target
  abbrev with_target : String → State B → State B
  with_target j s = record s {
    known_targets = insert j (record { highest_sent = 0; highest_ack = 0 }) s.known_targets;
  }

  with_target-IsInOrder :
      (j k : String) (s : State B)
      → lookup j s.known_targets ≡ none
      → IsInOrder k s
      → IsInOrder k (with_target j s)
  with_target-IsInOrder j k s missing h = elim (Bool-cases (j == k)) [
    | inl same ↦
        let missing_k : lookup k s.known_targets ≡ none =
          subst (λ x. lookup x s.known_targets ≡ none) ((==_iff j k).0 same) missing in
        let nothing : InOrderAt none (numbers_to k s.calls) = rw missing_k at h in
        rw (lookup-insert, same, nothing) (tt, tt)
    | inr other ↦ rw (lookup-insert, other) h
  ]

  add_delivery_target-IsInOrder :
      (j k : String) (s s' : State B)
      → add_delivery_target j s ≡ ok s'
      → IsInOrder k s
      → IsInOrder k s'
  unfolding add_delivery_target
  add_delivery_target-IsInOrder j k s s' e h = elim (Bool-cases (contains j s.known_targets)) [
    | inl old ↦ ground (arith, old)
    | inr new ↦
        let made : with_target j s ≡ s' = ground (arith, new) in
        subst (IsInOrder k) made
          (with_target-IsInOrder j k s ((contains_iff_lookup j s.known_targets).0 new) h)
  ]

  -- What the rest of the program can do to the module: add a target, or deliver.
  pub data Step : State B → State B → Type 0 where
    added : {s t : State B} (k : String) → add_delivery_target k s ≡ ok t → Step s t
    delivered :
        {s t : State B} (mbs : Dict String (Mailbox B))
        → AllDistinct mbs
        → t ≡ deliver mbs s
        → Step s t

  pub data Reach : State B → State B → Type 0 where
    here : {s : State B} → Reach s s
    next : {s t u : State B} → Reach s t → Step t u → Reach s u

  abbrev pub initial : State B
  initial = record { known_targets = []; calls = [] }

  Step-IsInOrder : (k : String) {s t : State B} → Step s t → IsInOrder k s → IsInOrder k t
  Step-IsInOrder k (added {s} {t} j e) h = add_delivery_target-IsInOrder j k s t e h
  Step-IsInOrder k (delivered {s} mbs d e) h = rw e (deliver-IsInOrder k mbs s d h)

  Reach-IsInOrder : (k : String) {s t : State B} → Reach s t → IsInOrder k s → IsInOrder k t
  Reach-IsInOrder k here h = h
  Reach-IsInOrder k (next r st) h = Step-IsInOrder k st (Reach-IsInOrder k r h)

  -- In every state that the module can reach from the empty one, by adding targets and delivering
  -- mailboxes in which every message has its own number, the numbers of the messages that the
  -- deliverator of a target was ever given increase strictly: no message is sent twice, and none
  -- out of order.
  pub sent_once : (k : String) {s : State B} → Reach initial s → IsIncreasing (numbers_to k s.calls)
  unfolding lookup
  sent_once k {s} r =
      IsIncreasing-of_InOrderAt (lookup k s.known_targets) _ (Reach-IsInOrder k r refl)
