-- ===== src/Page/Tests.antt =====
-- A run of the page of lib/ag-solo/html/main.js.
use cosmic_swingset.Page.{
  Page, blank, set_command, set_last_command, add_history_entry, update_history, set_next_hist_num,
  input_history_up, submit_eval, Event, updated, next_set, up, submitted, typed, step, run,
}
use cosmic_swingset.Page.Recall.{up_recalls}
use cosmic_swingset.Base.{nat_eq, string_eq, list_eq, ◌≡◌, refl, List, [], ◌∷◌}
use cosmic_swingset.Base.Dict.{contains, insert}
use cosmic_swingset.Base.Text.{codes}

abbrev events : List Event
events =
    next_set 4
    ∷ updated 2 (codes "1+1") (codes "2")
    ∷ typed (codes "a")
    ∷ submitted
    ∷ typed (codes "b")
    ∷ up
    ∷ typed (codes "home")
    ∷ []

up_recalls_example :
    let p : Page = run events blank in (input_history_up (submit_eval p)).input ≡ p.input
up_recalls_example = up_recalls events

first_number : (run (next_set 4 ∷ submitted ∷ []) blank).next_hist_num ≡ 5
unfolding run step set_next_hist_num submit_eval update_history set_last_command set_command
    add_history_entry contains insert
first_number = refl
