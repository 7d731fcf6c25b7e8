-- ===== src/Outbound.antt =====
-- lib/ag-solo/outbound.js: the messages of the mailboxes for each known target. The deliverators are
-- callbacks of other modules, so the state keeps the calls made to them, in order.
pub mod Numbers
pub mod Once
pub mod Settled
mod Tests
use cosmic_swingset.Base.{
  ltb, if◌then◌else◌, keep, Result, ok, err, ◌==◌, nat_eq, string_eq, list_eq, ℕ, String, Bool,
  true, false, not, ◌||◌, none, some, List, [], ◌∷◌, ◌++◌,
}
use cosmic_swingset.Base.Dict.{Dict, lookup, contains, insert}
use cosmic_swingset.Base.Sort.{sort_by}

-- A value of `knownTargets`.
pub record Target : Type 0 where
  pub highest_sent : ℕ
  pub highest_ack : ℕ

-- A value of `mbs.exportToData()`, as far as it is read here.
pub record Mailbox (B : Type 0) : Type 0 where
  pub outbox : List (ℕ × B)
  pub inbound_ack : ℕ

-- A call `t.deliverator(newMessages, acknum)`.
pub record Call (B : Type 0) : Type 0 where
  pub target : String
  pub messages : List (ℕ × B)
  pub acknum : ℕ

pub record State (B : Type 0) : Type 0 where
  pub known_targets : Dict String Target
  pub calls : List (Call B)

pub data Thrown : Type 0 where
  already_added : String → Thrown

module _ {B : Type 0} where
  abbrev pub number : ℕ × B → ℕ
  number m = m.0

  -- `newMessages[newMessages.length - 1][0]`, or the old value when there is none
  abbrev pub last_number : ℕ → List (ℕ × B) → ℕ
  last_number n [] = n
  last_number n (m ∷ ms) = last_number m.0 ms

  abbrev pub is_empty : List (ℕ × B) → Bool
  is_empty [] = true
  is_empty (_ ∷ _) = false

  -- the messages above `highestSent`, sorted by number
  pub new_messages : Target → Mailbox B → List (ℕ × B)
  new_messages t mb = sort_by number (keep (λ m. ltb t.highest_sent m.0) mb.outbox)

  pub send : String → Target → Mailbox B → State B → State B
  send target t mb s = record {
    known_targets =
        insert target
          (record {
            highest_sent = last_number t.highest_sent (new_messages t mb);
            highest_ack = mb.inbound_ack;
          })
          s.known_targets;
    calls =
        s.calls
        ++ record { target = target; messages = new_messages t mb; acknum = mb.inbound_ack } ∷ [];
  }

  -- the body of the loop of `deliver`
  pub deliver_one : String → Mailbox B → State B → State B
  unfolding send
  deliver_one target mb s = elim (lookup target s.known_targets) [
    | none ↦ s
    | some t ↦
        if not (is_empty (new_messages t mb)) || not (mb.inbound_ack == t.highest_ack)
        then send target t mb s
        else s
  ]

  pub deliver : Dict String (Mailbox B) → State B → State B
  deliver [] s = s
  deliver ((target, mb) ∷ rest) s = deliver rest (deliver_one target mb s)

  unfoldable pub add_delivery_target : String → State B → Result Thrown (State B)
  add_delivery_target target s =
      if contains target s.known_targets
      then err (already_added target)
      else ok (record s {
        known_targets =
            insert target (record { highest_sent = 0; highest_ack = 0 }) s.known_targets;
      })
