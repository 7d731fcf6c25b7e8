-- ===== src/Page.antt =====
-- lib/ag-solo/html/main.js: the history of commands in the browser, and the input field. The array
-- `commands` may have holes: its length is kept beside its entries.
pub mod Recall
pub mod Canvas
mod Tests
use cosmic_swingset.Base.{
  ltb, if◌then◌else◌, nat_eq, string_eq, list_eq, ℕ, zero, suc, ◌+◌, Option, none, some, List, [],
  ◌∷◌,
}
use cosmic_swingset.Base.Dict.{Dict, lookup, contains, insert}
use cosmic_swingset.Base.Text.{Text, codes}

pub record Page : Type 0 where
  pub next_hist_num : ℕ
  pub input_history_num : ℕ
  pub commands : Dict ℕ Text
  pub commands_length : ℕ
  -- the rows of the history, with the command and the result that they show
  pub rows : Dict ℕ (Text × Text)
  -- `inp.value`
  pub input : Text

abbrev pub blank : Page
blank = record {
  next_hist_num = 0;
  input_history_num = 0;
  commands = [];
  commands_length = 0;
  rows = [];
  input = [];
}

-- `commands[n] = command`
pub set_command : ℕ → Text → Page → Page
set_command n command p = record p {
  commands = insert n command p.commands;
  commands_length = if ltb n p.commands_length then p.commands_length else n + 1;
}

-- `commands[commands.length - 1] = command`, which sets no element where there is none
pub set_last_command : Text → Page → Page
unfolding set_command
set_last_command command p = elim p.commands_length [ zero ↦ p | suc n ↦ set_command n command p ]

-- `addHistoryEntry(histnum, command, result)`
pub add_history_entry : ℕ → Text → Text → Page → Page
unfolding set_command
add_history_entry n command result p =
    set_command n command (record p { rows = insert n (command, result) p.rows })

-- `updateHistory(histnum, command, result)`
pub update_history : ℕ → Text → Text → Page → Page
unfolding add_history_entry
update_history n command result p =
    let q : Page = record p {
      next_hist_num = if ltb n p.next_hist_num then p.next_hist_num else n + 1;
    } in
    if contains n q.rows
    then record q { rows = insert n (command, result) q.rows }
    else add_history_entry n command result q

-- `setNextHistNum(least)`, without the number that it returns, which is the old `nextHistNum`
pub set_next_hist_num : ℕ → Page → Page
unfolding set_command
set_next_hist_num least p =
    let next = if ltb p.next_hist_num least then least else p.next_hist_num in
    set_command next [] (record p { next_hist_num = next; input_history_num = next })

-- the text that the field shows for an element
abbrev pub value_of : Option Text → Text
value_of none = codes "undefined"
value_of (some command) = command

-- `inputHistory(delta)` where `nextInput` is not negative
pub recall : ℕ → Page → Page
recall n p =
    if ltb n p.commands_length
    then record p { input_history_num = n; input = value_of (lookup n p.commands) }
    else p

-- the same for the number before one, if there is one
abbrev pub recall_before : ℕ → Page → Page
recall_before zero p = p
recall_before (suc n) p = recall n p

-- `inputHistory(-1)`
pub input_history_up : Page → Page
unfolding recall
input_history_up p = recall_before p.input_history_num p

-- `inputHistory(+1)`
pub input_history_down : Page → Page
unfolding recall
input_history_down p = recall (p.input_history_num + 1) p

-- `submitEval()`; the `doEval` that is sent has the old `nextHistNum` and the input
pub submit_eval : Page → Page
unfolding set_next_hist_num update_history set_last_command set_command
submit_eval p =
    let number = p.next_hist_num in
    let command = p.input in
    let shown =
      update_history number command (codes "sending for eval")
        (set_next_hist_num (p.next_hist_num + 1) p) in
    let kept = set_last_command command shown in
    record (set_command kept.commands_length [] kept) { input = [] }

-- What happens to the page: an update or a number from the server, and the keys.
pub data Event : Type 0 where
  updated : ℕ → Text → Text → Event
  next_set : ℕ → Event
  up down submitted : Event
  -- any other key, with the input as it is then
  typed : Text → Event

pub step : Event → Page → Page
unfolding update_history set_next_hist_num input_history_up input_history_down submit_eval
    set_last_command
step (updated n command result) p = update_history n command result p
step (next_set least) p = set_next_hist_num least p
step up p = input_history_up p
step down p = input_history_down p
step submitted p = submit_eval p
step (typed text) p = set_last_command text (record p { input = text })

pub run : List Event → Page → Page
unfolding step
run [] p = p
run (e ∷ es) p = run es (step e p)
