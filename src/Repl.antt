-- ===== src/Repl.antt =====
-- lib/ag-solo/vats/repl.js: the handler of the REPL, over what evaluation and printing return. The
-- objects `commands`, `history` and `display` are keyed by the number of the command.
pub mod History
mod Tests
use cosmic_swingset.Base.{
  ltb, if◌then◌else◌, Result, ok, err, nat_eq, string_eq, list_eq, ℕ, zero, suc, ◌+◌, Bool, true,
  Option, none, some, List, [], ◌∷◌, ◌++◌,
}
use cosmic_swingset.Base.Dict.{Dict, lookup, insert}
use cosmic_swingset.Base.Text.{Text, codes}

-- `{ type: 'updateHistory', histnum, command, display }`
pub record Update : Type 0 where
  pub histnum : ℕ
  pub command : Option Text
  pub display : Option Text

-- `highestHistory` is -1 at first: `none`.
pub record Repl (V : Type 0) : Type 0 where
  pub commands : Dict ℕ Text
  pub history : Dict ℕ V
  pub display : Dict ℕ Text
  pub highest_history : Option ℕ
  pub broadcasts : List Update
  -- the commands whose `updateHistorySlot` is queued, since their promise has settled
  pub queued : List ℕ

-- How `evaluateProgram(body)` ends: with a value that is no promise, with a promise, or by a throw.
pub data Evaluation (V : Type 0) : Type 0 where
  value : V → Evaluation V
  promise : V → Evaluation V
  throws : V → Evaluation V

pub data Thrown : Type 0 where
  not_larger : ℕ → Option ℕ → Thrown

-- how the promise of a command settles, later
pub data Settlement (V : Type 0) : Type 0 where
  fulfilled : V → Settlement V
  rejected : V → Settlement V

-- What reaches the handler, and the callbacks of promises, which run later: the one on the promise of a
-- command, and the `updateHistorySlot` that the first of them queues.
pub data Event (V : Type 0) : Type 0 where
  evaluate : ℕ → Text → Evaluation V → Event V
  settles : ℕ → Settlement V → Event V
  notifies : Event V
  rebroadcast : Event V

abbrev pub exceeds : ℕ → Option ℕ → Bool
exceeds n none = true
exceeds n (some h) = ltb h n

module _ {V : Type 0} where
  abbrev pub empty : Repl V
  empty = record {
    commands = [];
    history = [];
    display = [];
    highest_history = none;
    broadcasts = [];
    queued = [];
  }

  -- `updateHistorySlot(histnum)`
  pub update_history_slot : ℕ → Repl V → Repl V
  update_history_slot n r = record r {
    broadcasts =
        r.broadcasts
        ++ record { histnum = n; command = lookup n r.commands; display = lookup n r.display } ∷ [];
  }

  -- the rounds from `histnum` on, `fuel` of them
  pub rebroadcast_from : ℕ → ℕ → Repl V → Repl V
  unfolding update_history_slot
  rebroadcast_from zero n r = r
  rebroadcast_from (suc fuel) n r = rebroadcast_from fuel (n + 1) (update_history_slot n r)

  -- the loop up to `highestHistory`
  pub rebroadcast_to : Option ℕ → Repl V → Repl V
  unfolding rebroadcast_from
  rebroadcast_to none r = r
  rebroadcast_to (some h) r = rebroadcast_from (h + 1) 0 r

  pub rebroadcast_history : Repl V → Repl V
  rebroadcast_history r = rebroadcast_to r.highest_history r

  -- the slots of a command that is about to be evaluated
  abbrev pub begun : ℕ → Text → Repl V → Repl V
  begun n body repl = record repl {
    highest_history = some n;
    commands = insert n body repl.commands;
    display = insert n (codes "working on eval(" ++ body ++ codes ")") repl.display;
  }

-- `stringify` of a value, and `${e}`, are functions of the value; so is `stringify` of a text.
module _ {V : Type 0} (stringify to_text : V → Text) (quote : Text → Text) where
  -- the text that is shown for a promise that was rejected
  abbrev pub rejection : V → Text
  rejection v = codes "Promise.reject(" ++ quote (to_text v) ++ codes ")"

  -- what a command shows, and what `history` holds, once the evaluation has returned
  pub evaluated : ℕ → Evaluation V → Repl V → Repl V
  evaluated n (value v) r = record r {
    history = insert n v r.history;
    display = insert n (stringify v) r.display;
  }
  evaluated n (throws v) r = record r {
    history = insert n v r.history;
    display = insert n (codes "exception: " ++ to_text v) r.display;
  }
  evaluated n (promise v) r = record r {
    history = insert n v r.history;
    display = insert n (codes "unresolved Promise") (insert n (stringify v) r.display);
  }

  -- `doEval({ number, body })`
  pub do_eval : ℕ → Text → Evaluation V → Repl V → Result Thrown (Repl V)
  unfolding update_history_slot evaluated
  do_eval n body r repl =
      if exceeds n repl.highest_history
      then ok (update_history_slot n (evaluated n r (update_history_slot n (begun n body repl))))
      else err (not_larger n repl.highest_history)

  -- the callback on the promise of a command, behind which `.then(_ => updateHistorySlot(histnum))`
  -- is queued
  pub settle : ℕ → Settlement V → Repl V → Repl V
  settle n (fulfilled v) r = record r {
    history = insert n v r.history;
    display = insert n (stringify v) r.display;
    queued = r.queued ++ n ∷ [];
  }
  settle n (rejected v) r = record r {
    display = insert n (rejection v) r.display;
    queued = r.queued ++ n ∷ [];
  }

  -- the turn of the first `updateHistorySlot` in the queue
  abbrev pub notify_first : List ℕ → Repl V → Repl V
  notify_first [] r = r
  notify_first (n ∷ ns) r = update_history_slot n (record r { queued = ns })

  pub notify : Repl V → Repl V
  unfolding update_history_slot
  notify r = notify_first r.queued r

  -- One event; a throw of `doEval` leaves the REPL alone.
  pub step : Event V → Repl V → Repl V
  step (evaluate n body r) repl = elim (do_eval n body r repl) [ ok repl' ↦ repl' | err _ ↦ repl ]
  step (settles n s) repl = settle n s repl
  step notifies repl = notify repl
  step rebroadcast repl = rebroadcast_history repl

  pub run : List (Event V) → Repl V → Repl V
  run [] repl = repl
  run (event ∷ rest) repl = run rest (step event repl)
