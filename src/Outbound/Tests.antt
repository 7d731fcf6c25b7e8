-- ===== src/Outbound/Tests.antt =====
-- Runs of lib/ag-solo/outbound.js.
use cosmic_swingset.Outbound.{
  Mailbox, State, new_messages, send, deliver_one, deliver, add_delivery_target,
}
use cosmic_swingset.Outbound.Once.{
  numbers_to, added, delivered, Reach, here, next, initial, sent_once,
}
use cosmic_swingset.Outbound.Settled.{deliver_idempotent}
use cosmic_swingset.Base.{nat_eq, string_eq, list_eq, ℕ, String, ◌≡◌, refl, [], ◌∷◌, arith}
use cosmic_swingset.Base.Dict.{Dict, lookup, contains, insert}
use cosmic_swingset.Base.Sort.{sort_by, IsIncreasing}

-- the messages of a mailbox, out of order, and 1 and 2 once more later
abbrev first_box : Dict String (Mailbox ℕ)
first_box = ("a", record { outbox = (2, 20) ∷ (1, 10) ∷ []; inbound_ack = 0 }) ∷ []

abbrev later_box : Dict String (Mailbox ℕ)
later_box = ("a", record { outbox = (1, 10) ∷ (3, 30) ∷ (2, 20) ∷ []; inbound_ack = 4 }) ∷ []

abbrev added_state : State ℕ
added_state = record {
  known_targets = ("a", record { highest_sent = 0; highest_ack = 0 }) ∷ [];
  calls = [];
}

abbrev first_state : State ℕ
first_state = deliver first_box added_state

reached : Reach initial (deliver later_box first_state)
unfolding add_delivery_target contains insert
reached =
    next
      (next (next here (added "a" refl))
        (delivered first_box (((omega arith, tt), (tt, tt)), tt) refl))
      (delivered later_box (((omega arith, (omega arith, tt)), ((omega arith, tt), (tt, tt))), tt)
        refl)

sent_once_example : IsIncreasing (numbers_to "a" (deliver later_box first_state).calls)
sent_once_example = sent_once "a" reached

later_calls : numbers_to "a" (deliver later_box first_state).calls ≡ 1 ∷ 2 ∷ 3 ∷ []
unfolding deliver deliver_one new_messages send sort_by lookup insert
later_calls = refl

deliver_idempotent_example :
    deliver later_box (deliver later_box first_state) ≡ deliver later_box first_state
unfolding lookup
deliver_idempotent_example = deliver_idempotent later_box first_state (refl, tt)
