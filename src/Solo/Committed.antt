-- ===== src/Solo/Committed.antt =====
-- lib/ag-solo/start.js: the order of saving the state and handing on the mailboxes.
use cosmic_swingset.Solo.{
  Machine, Effect, saved, save_failed, delivered, Solo, array, not_array, Arrival, inbound, command,
  save_state, deliver_saved, process_kernel, deliver_inbound, deliver_inbound_command, step,
  run_all, build_swingset,
}
use cosmic_swingset.Base.{Bool-cases, ◌≡◌, refl, inl, inr, Bool, true, false, List, [], ◌∷◌, ◌++◌}

module _ {K : Type 0} where
  -- every hand-over is of the kernel that was saved last, directly before it
  abbrev pub IsCommitted : List (Effect K) → Type 0
  IsCommitted [] = Unit
  IsCommitted (saved k ∷ delivered j ∷ rest) = (j ≡ k) × IsCommitted rest
  IsCommitted (saved k ∷ rest) = IsCommitted rest
  IsCommitted (save_failed ∷ rest) = IsCommitted rest
  IsCommitted (delivered j ∷ rest) = ⊥

  save_failed-IsCommitted :
      (es : List (Effect K)) → IsCommitted es → IsCommitted (es ++ save_failed ∷ [])
  save_failed-IsCommitted [] h = tt
  save_failed-IsCommitted (saved k ∷ []) h = tt
  save_failed-IsCommitted (saved k ∷ delivered j ∷ rest) h = (h.0, save_failed-IsCommitted rest h.1)
  save_failed-IsCommitted (saved k ∷ saved j ∷ rest) h = save_failed-IsCommitted (saved j ∷ rest) h
  save_failed-IsCommitted (saved k ∷ save_failed ∷ rest) h = save_failed-IsCommitted rest h
  save_failed-IsCommitted (save_failed ∷ rest) h = save_failed-IsCommitted rest h
  save_failed-IsCommitted (delivered j ∷ rest) h = absurd h

  saved-IsCommitted :
      (k : K) (es : List (Effect K))
      → IsCommitted es
      → IsCommitted ((es ++ saved k ∷ []) ++ delivered k ∷ [])
  saved-IsCommitted k [] h = (refl, tt)
  saved-IsCommitted k (saved l ∷ []) h = (refl, tt)
  saved-IsCommitted k (saved l ∷ delivered j ∷ rest) h = (h.0, saved-IsCommitted k rest h.1)
  saved-IsCommitted k (saved l ∷ saved j ∷ rest) h = saved-IsCommitted k (saved j ∷ rest) h
  saved-IsCommitted k (saved l ∷ save_failed ∷ rest) h = saved-IsCommitted k rest h
  saved-IsCommitted k (save_failed ∷ rest) h = saved-IsCommitted k rest h
  saved-IsCommitted k (delivered j ∷ rest) h = absurd h

module _ {K Message Command : Type 0} (m : Machine K Message Command) where
  process_kernel-IsCommitted :
      (works : Bool) (s : Solo K)
      → IsCommitted s.effects
      → IsCommitted (process_kernel m works s).1.effects
  unfolding process_kernel save_state deliver_saved
  process_kernel-IsCommitted true s h = saved-IsCommitted (m.run s.kernel) s.effects h
  process_kernel-IsCommitted false s h = save_failed-IsCommitted s.effects h

  step-IsCommitted :
      (a : Arrival Message Command) (s : Solo K)
      → IsCommitted s.effects
      → IsCommitted (step m a s).effects
  unfolding step deliver_inbound deliver_inbound_command
  step-IsCommitted (inbound sender not_array ack works) s h = h
  step-IsCommitted (inbound sender (array messages) ack works) s h =
      let taken : Solo K = record s {
        kernel = (m.mailbox_inbound sender messages ack s.kernel).1;
      } in
      elim (Bool-cases (m.mailbox_inbound sender messages ack s.kernel).0) [
        | inl fresh ↦ rw (fresh, step, deliver_inbound) (process_kernel-IsCommitted works taken h)
        | inr stale ↦ rw (stale, step, deliver_inbound) h
      ]
  step-IsCommitted (command obj works) s h =
      process_kernel-IsCommitted works (record s { kernel = m.inbound_command obj s.kernel }) h

  run_all-IsCommitted :
      (as' : List (Arrival Message Command)) (s : Solo K)
      → IsCommitted s.effects
      → IsCommitted (run_all m as' s).effects
  unfolding run_all
  run_all-IsCommitted [] s h = h
  run_all-IsCommitted (a ∷ as') s h = run_all-IsCommitted as' (step m a s) (step-IsCommitted a s h)

  -- From its start on, a solo machine whose calls run one after the other hands its mailboxes on
  -- only directly after the same state was saved, whatever arrives, and whichever saves fail.
  pub only_saved_is_delivered :
      (works : Bool) (kernel : K) (as' : List (Arrival Message Command))
      → IsCommitted (run_all m as' (build_swingset m works kernel).1).effects
  unfolding build_swingset
  only_saved_is_delivered works kernel as' =
      run_all-IsCommitted as' (build_swingset m works kernel).1
        (process_kernel-IsCommitted works (record { kernel = kernel; effects = [] }) tt)
