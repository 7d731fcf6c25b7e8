-- ===== src/Repl/Tests.antt =====
-- A run of lib/ag-solo/vats/repl.js, on values that are texts.
use cosmic_swingset.Repl.{
  Repl, value, promise, throws, rejected, Event, evaluate, settles, notifies, rebroadcast, empty,
  update_history_slot, rebroadcast_from, rebroadcast_to, rebroadcast_history, evaluated, do_eval,
  settle, notify, step, run,
}
use cosmic_swingset.Repl.History.{shown, browsers_are_current}
use cosmic_swingset.Base.{nat_eq, string_eq, list_eq, ◌≡◌, refl, none, some, List, [], ◌∷◌}
use cosmic_swingset.Base.Dict.{lookup, insert}
use cosmic_swingset.Base.Text.{Text, codes}

abbrev events : List (Event Text)
events =
    evaluate 0 (codes "x") (promise (codes "p"))
    ∷ evaluate 1 (codes "y") (throws (codes "bad"))
    ∷ settles 0 (rejected (codes "no"))
    ∷ notifies
    ∷ evaluate 1 (codes "z") (value (codes "late"))
    ∷ rebroadcast
    ∷ []

browsers_are_current_example :
    let r : Repl Text = run (λ v. v) (λ v. v) (λ v. v) events empty in
    shown 0 none r.broadcasts ≡ lookup 0 r.display
unfolding run step do_eval evaluated settle notify update_history_slot rebroadcast_history
    rebroadcast_to rebroadcast_from
browsers_are_current_example = browsers_are_current (λ v. v) (λ v. v) (λ v. v) events 0 refl

shown_last :
    lookup 0 (run (λ v. v) (λ v. v) (λ v. v) events empty).display
    ≡ some (codes "Promise.reject(no)")
unfolding run step do_eval evaluated settle notify update_history_slot rebroadcast_history
    rebroadcast_to rebroadcast_from lookup insert
shown_last = refl
