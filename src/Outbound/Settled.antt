-- ===== src/Outbound/Settled.antt =====
-- lib/ag-solo/outbound.js: `deliver` of mailboxes that were delivered before.
use mathlib.Core.Path.{subst}
use cosmic_swingset.Outbound.{
  Target, Mailbox, State, number, last_number, is_empty, new_messages, deliver_one, deliver,
}
use cosmic_swingset.Outbound.Numbers.{highest_after, outbox-le, new_messages-nil}
use cosmic_swingset.Base.{
  Option-cases, All, ==_iff, nat_eq, string_eq, list_eq, ℕ, ◌≤◌, String, ◌≡◌, refl, sym, ◌∙◌, ◌≢◌,
  inl, inr, true, none, some, List, [], ◌∷◌, arith,
}
use cosmic_swingset.Base.Dict.{Dict, lookup, lookup-insert_self, lookup-insert_ne, HasDistinctKeys}

module _ {B : Type 0} where
  -- Every message of the mailbox has been sent to the target, and its ack has been passed on.
  abbrev IsUpToDate : Mailbox B → Target → Type 0
  IsUpToDate mb t =
      All (λ m. number m ≤ t.highest_sent) mb.outbox × (mb.inbound_ack ≡ t.highest_ack)

  abbrev pub IsSettled : String → Mailbox B → State B → Type 0
  IsSettled k mb s = (t : Target) → lookup k s.known_targets ≡ some t → IsUpToDate mb t

  deliver_one_settled :
      (k : String) (mb : Mailbox B) (s : State B) → IsSettled k mb s → deliver_one k mb s ≡ s
  unfolding deliver_one
  deliver_one_settled k mb s h = elim (Option-cases (lookup k s.known_targets)) [
    | inl e ↦ ground (arith, e)
    | inr (t, e) ↦
        let none_new : new_messages t mb ≡ [] = new_messages-nil t mb (h t e).0 in
        ground (arith, e, h t e, none_new, ==_iff mb.inbound_ack t.highest_ack)
  ]

  -- the record that `send` writes for the target
  abbrev sent : Target → Mailbox B → Target
  sent t mb = record { highest_sent = highest_after t mb; highest_ack = mb.inbound_ack }

  sent-IsUpToDate : (t u : Target) (mb : Mailbox B) → sent t mb ≡ u → IsUpToDate mb u
  sent-IsUpToDate t u mb e = subst (IsUpToDate mb) e (outbox-le t mb, refl)

  -- When `deliver` finds nothing to do for a target, nothing is to be done.
  idle-IsUpToDate :
      (t : Target) (mb : Mailbox B)
      → is_empty (new_messages t mb) ≡ true
      → mb.inbound_ack ≡ t.highest_ack
      → IsUpToDate mb t
  idle-IsUpToDate t mb h e =
      let all : All (λ m. number m ≤ highest_after t mb) mb.outbox = outbox-le t mb in
      (rw (same (new_messages t mb) h) at all, e)
    where
      same :
          (ms : List (ℕ × B)) → is_empty ms ≡ true → last_number t.highest_sent ms ≡ t.highest_sent
      same [] k = refl
      same (m ∷ ms) k = cc

  deliver_one-IsSettled :
      (k : String) (mb : Mailbox B) (s : State B) → IsSettled k mb (deliver_one k mb s)
  unfolding deliver_one
  deliver_one-IsSettled k mb s u e = elim (Option-cases (lookup k s.known_targets)) [
    | inl missing ↦ ground (arith, missing)
    | inr (t, found) ↦ ground (
      arith,
      found,
      ==_iff mb.inbound_ack t.highest_ack,
      idle-IsUpToDate t mb,
      sent-IsUpToDate t u mb,
      lookup-insert_self k (sent t mb) s.known_targets,
    )
  ]

  deliver_one-lookup_ne :
      (k j : String) (mb : Mailbox B) (s : State B)
      → k ≢ j
      → lookup j (deliver_one k mb s).known_targets ≡ lookup j s.known_targets
  unfolding deliver_one
  deliver_one-lookup_ne k j mb s ne = elim (Option-cases (lookup k s.known_targets)) [
    | inl missing ↦ ground (arith, missing)
    | inr (t, found) ↦ ground (arith, found, lookup-insert_ne k j (sent t mb) s.known_targets ne)
  ]

  deliver-lookup_ne :
      (k : String) (mbs : Dict String (Mailbox B)) (s : State B)
      → lookup k mbs ≡ none
      → lookup k (deliver mbs s).known_targets ≡ lookup k s.known_targets
  unfolding deliver lookup
  deliver-lookup_ne k [] s h = refl
  deliver-lookup_ne k ((j, mb) ∷ mbs) s h = ground (
    arith,
    ==_iff j k,
    deliver_one-lookup_ne j k mb s,
    deliver-lookup_ne k mbs (deliver_one j mb s),
  )

  abbrev AllSettled : Dict String (Mailbox B) → State B → Type 0
  AllSettled [] s = Unit
  AllSettled ((k, mb) ∷ mbs) s = IsSettled k mb s × AllSettled mbs s

  deliver-AllSettled :
      (mbs : Dict String (Mailbox B)) (s : State B)
      → HasDistinctKeys mbs
      → AllSettled mbs (deliver mbs s)
  unfolding deliver
  deliver-AllSettled [] s d = tt
  deliver-AllSettled ((k, mb) ∷ mbs) s d = (
    λ t e. deliver_one-IsSettled k mb s t (sym (deliver-lookup_ne k mbs _ d.0) ∙ e),
    deliver-AllSettled mbs (deliver_one k mb s) d.1,
  )

  deliver_settled :
      (mbs : Dict String (Mailbox B)) (s : State B) → AllSettled mbs s → deliver mbs s ≡ s
  unfolding deliver
  deliver_settled [] s h = refl
  deliver_settled ((k, mb) ∷ mbs) s h =
      rw (deliver_one_settled k mb s h.0) (deliver_settled mbs s h.1)

  -- For mailboxes of distinct targets, a second `deliver` of the same mailboxes changes nothing:
  -- it makes no call of a deliverator and leaves every target as it is.
  pub deliver_idempotent :
      (mbs : Dict String (Mailbox B)) (s : State B)
      → HasDistinctKeys mbs
      → deliver mbs (deliver mbs s) ≡ deliver mbs s
  deliver_idempotent mbs s d = deliver_settled mbs (deliver mbs s) (deliver-AllSettled mbs s d)
