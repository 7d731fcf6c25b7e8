-- ===== src/Solo/Tests.antt =====
-- A run of a solo machine.
use cosmic_swingset.Solo.{
  Machine, saved, save_failed, delivered, array, not_array, Arrival, inbound, command, save_state,
  deliver_saved, process_kernel, deliver_inbound, deliver_inbound_command, step, run_all,
  build_swingset,
}
use cosmic_swingset.Solo.Committed.{IsCommitted, only_saved_is_delivered}
use cosmic_swingset.Base.{ℕ, ◌+◌, ◌≡◌, refl, true, false, List, [], ◌∷◌}
use cosmic_swingset.Base.Text.{codes}

-- A kernel that counts: a message adds its number, a command ten, a run one.
abbrev counter : Machine ℕ ℕ ℕ
counter = record {
  mailbox_inbound = λ sender messages ack k. (true, k + ack);
  inbound_command = λ c k. k + 10;
  run = λ k. k + 1;
}

abbrev arrivals : List (Arrival ℕ ℕ)
arrivals =
    inbound (codes "gci") (array []) 5 true
    ∷ command 0 false
    ∷ inbound (codes "gci") not_array 0 true
    ∷ []

only_saved_is_delivered_example :
    IsCommitted (run_all counter arrivals (build_swingset counter true 0).1).effects
only_saved_is_delivered_example = only_saved_is_delivered counter true 0 arrivals

effects_in_order :
    (run_all counter arrivals (build_swingset counter true 0).1).effects
    ≡ saved 1 ∷ delivered 1 ∷ saved 7 ∷ delivered 7 ∷ save_failed ∷ []
unfolding run_all step build_swingset process_kernel save_state deliver_saved deliver_inbound
    deliver_inbound_command
effects_in_order = refl
