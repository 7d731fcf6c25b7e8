-- ===== src/Page/Recall.antt =====
-- lib/ag-solo/html/main.js: recalling a command that was submitted.
use mathlib.Core.Path.{subst}
use cosmic_swingset.Page.{
  Page, blank, set_command, set_last_command, add_history_entry, update_history, set_next_hist_num,
  recall, recall_before, input_history_up, input_history_down, submit_eval, Event, updated,
  next_set, up, down, submitted, typed, step, run,
}
use cosmic_swingset.Base.{
  ltb, nat_beq, if◌then◌else◌, Bool-cases, nat_eq, string_eq, list_eq, ℕ, zero, suc, ◌+◌, ◌≤◌, ◌<◌,
  ◌≡◌, refl, ap, ◌∙◌, ◌⊎◌, inl, inr, false, ◌||◌, some, List, [], ◌∷◌, arith,
}
use cosmic_swingset.Base.Dict.{Dict, lookup, contains, insert, lookup-insert_self, lookup-insert_ne}
use cosmic_swingset.Base.Text.{Text, codes}

-- The rows have numbers below the next, and `commands` ends two behind it at most.
pub record IsNumbered (p : Page) : Type 0 where
  pub rows_below : (k : ℕ) → p.next_hist_num ≤ k → contains k p.rows ≡ false
  pub ends : p.commands_length ≤ p.next_hist_num + 2

contains-insert :
    (n k : ℕ) (v : Text × Text) (rows : Dict ℕ (Text × Text))
    → contains k (insert n v rows) ≡ (nat_beq n k || contains k rows)
unfolding contains insert
contains-insert n k v [] = ground arith
contains-insert n k v ((j, w) ∷ rows) = ground (arith, contains-insert n k v rows)

-- the last element, as a field
last-IsNumbered :
    (c : Text) (n : ℕ) (p : Page)
    → n < p.next_hist_num + 2
    → IsNumbered p
    → IsNumbered (set_command n c p)
unfolding set_command
last-IsNumbered c n p lt h = record { rows_below = h.rows_below; ends = ground (arith, h.ends) }

set_last_command-cases :
    (c : Text) (l : ℕ) (p : Page)
    → p.commands_length ≡ l
    → (set_last_command c p ≡ p)
      ⊎ ((n : ℕ) × (l ≡ suc n) × (set_last_command c p ≡ set_command n c p))
unfolding set_last_command
set_last_command-cases c zero p e = inl (ground (arith, e))
set_last_command-cases c (suc n) p e = inr (n, refl, last_is c n p.commands_length p e)
  where
    last_is :
        (d : Text) (m l : ℕ) (q : Page)
        → l ≡ suc m
        → (elim l [ zero ↦ q | suc k ↦ set_command k d q ]) ≡ set_command m d q
    last_is d m l q f = rw f refl

set_last_command-IsNumbered :
    (c : Text) (p : Page) → IsNumbered p → IsNumbered (set_last_command c p)
set_last_command-IsNumbered c p h = elim (set_last_command-cases c p.commands_length p refl) [
  | inl e ↦ rw e h
  | inr (n, l, e) ↦ rw e (last-IsNumbered c n p (omega (arith, l, h.ends)) h)
]

update_history-IsNumbered :
    (n : ℕ) (c r : Text) (p : Page) → IsNumbered p → IsNumbered (update_history n c r p)
unfolding update_history add_history_entry set_command
update_history-IsNumbered n c r p h = record {
  rows_below = λ k le. ground (arith, contains-insert n k (c, r) p.rows, h.rows_below k);
  ends = ground (arith, h.ends);
}

set_next_hist_num-IsNumbered :
    (least : ℕ) (p : Page) → IsNumbered p → IsNumbered (set_next_hist_num least p)
unfolding set_next_hist_num set_command
set_next_hist_num-IsNumbered least p h = record {
  rows_below = λ k le. ground (arith, h.rows_below k);
  ends = ground (arith, h.ends);
}

-- the fields in which a page agrees with what recalling a command needs
record IsAt (n l : ℕ) (command : Text) (p : Page) : Type 0 where
  next_is : p.next_hist_num ≡ n + 1
  history_is : p.input_history_num ≡ n + 1
  length_is : p.commands_length ≡ l
  command_is : lookup n p.commands ≡ some command

set_command-IsAt :
    (n l m : ℕ) (command c : Text) (p : Page)
    → n < m
    → m ≤ l
    → IsAt n l command p
    → IsAt n (if ltb m l then l else m + 1) command (set_command m c p)
unfolding set_command
set_command-IsAt n l m command c p lt le h = record {
  next_is = h.next_is;
  history_is = h.history_is;
  length_is = ground (arith, h.length_is);
  command_is = lookup-insert_ne m n c p.commands (omega (arith, lt)) ∙ h.command_is;
}

shown-IsAt :
    (p : Page)
    → IsNumbered p
    → IsAt p.next_hist_num (p.next_hist_num + 2) p.input (
        update_history p.next_hist_num p.input
          (codes "sending for eval")
          (set_next_hist_num (p.next_hist_num + 1) p))
unfolding update_history add_history_entry set_next_hist_num set_command
shown-IsAt p h = record {
  next_is = ground (arith, h.rows_below p.next_hist_num);
  history_is = ground (arith, h.rows_below p.next_hist_num);
  length_is = ground (arith, h.rows_below p.next_hist_num, h.ends);
  command_is = ground (
    arith,
    h.rows_below p.next_hist_num,
    lookup-insert_self p.next_hist_num p.input (insert (p.next_hist_num + 1) [] p.commands),
  );
}

kept-IsAt :
    (n : ℕ) (command : Text) (p : Page)
    → IsAt n (n + 2) command p
    → IsAt n (n + 2) command (set_last_command command p)
kept-IsAt n command p h = elim (set_last_command-cases command p.commands_length p refl) [
  | inl e ↦ rw e h
  | inr (m, l, e) ↦
      let is_last : m ≡ n + 1 = omega (arith, l, h.length_is) in
      let long : (if ltb m (n + 2) then n + 2 else m + 1) ≡ n + 2 = ground (arith, is_last) in
      rw e (
        subst (λ k. IsAt n k command (set_command m command p)) long
          (set_command-IsAt n (n + 2) m command command p (omega (arith, is_last))
            (omega (arith, is_last)) h))
]

recalled :
    (n : ℕ) (command : Text) (p : Page)
    → IsAt n (n + 3) command p
    → (input_history_up p).input ≡ command
unfolding input_history_up recall
recalled n command p h =
    let number : p.input_history_num ≡ suc n = omega (arith, h.history_is) in
    ap (λ i. (recall_before i p).input) number ∙ ground (arith, h.length_is, h.command_is)

submit_eval-IsAt :
    (p : Page) → IsNumbered p → IsAt p.next_hist_num (p.next_hist_num + 3) p.input (submit_eval p)
unfolding submit_eval
submit_eval-IsAt p h =
    let kept : Page = set_last_command p.input (
      update_history p.next_hist_num p.input (codes "sending for eval")
        (set_next_hist_num (p.next_hist_num + 1) p)) in
    let at_kept : IsAt p.next_hist_num (p.next_hist_num + 2) p.input kept =
      kept-IsAt p.next_hist_num p.input
        (update_history p.next_hist_num p.input (codes "sending for eval")
          (set_next_hist_num (p.next_hist_num + 1) p))
        (shown-IsAt p h) in
    unfold set_command in
    record {
      next_is = at_kept.next_is;
      history_is = at_kept.history_is;
      length_is = ground (arith, at_kept.length_is);
      command_is =
          lookup-insert_ne kept.commands_length p.next_hist_num [] kept.commands
            (omega (arith, at_kept.length_is))
          ∙ at_kept.command_is;
    }

-- the rows stay
set_command-IsNumbered :
    (n : ℕ) (c i : Text) (p : Page)
    → n < p.next_hist_num + 2
    → IsNumbered p
    → IsNumbered (record (set_command n c p) { input = i })
unfolding set_command
set_command-IsNumbered n c i p lt h = record {
  rows_below = h.rows_below;
  ends = ground (arith, h.ends);
}

submit_eval-IsNumbered : (p : Page) → IsNumbered p → IsNumbered (submit_eval p)
unfolding submit_eval
submit_eval-IsNumbered p h =
    let shown : Page =
      update_history p.next_hist_num p.input (codes "sending for eval")
        (set_next_hist_num (p.next_hist_num + 1) p) in
    let kept : Page = set_last_command p.input shown in
    let at_kept : IsAt p.next_hist_num (p.next_hist_num + 2) p.input kept =
      kept-IsAt p.next_hist_num p.input shown (shown-IsAt p h) in
    let numbered : IsNumbered shown =
      update_history-IsNumbered p.next_hist_num p.input (codes "sending for eval")
        (set_next_hist_num (p.next_hist_num + 1) p)
        (set_next_hist_num-IsNumbered (p.next_hist_num + 1) p h) in
    set_command-IsNumbered kept.commands_length [] [] kept
      (omega (arith, at_kept.length_is, at_kept.next_is))
      (set_last_command-IsNumbered p.input shown numbered)

recall-IsNumbered : (n : ℕ) (p : Page) → IsNumbered p → IsNumbered (recall n p)
unfolding recall
recall-IsNumbered n p h = elim (Bool-cases (ltb n p.commands_length)) [
  | inl e ↦ rw (e, recall) (record { rows_below = h.rows_below; ends = h.ends })
  | inr e ↦ rw (e, recall) h
]

recall_before-IsNumbered : (n : ℕ) (p : Page) → IsNumbered p → IsNumbered (recall_before n p)
recall_before-IsNumbered zero p h = h
recall_before-IsNumbered (suc n) p h = recall-IsNumbered n p h

step-IsNumbered : (e : Event) (p : Page) → IsNumbered p → IsNumbered (step e p)
unfolding step input_history_up input_history_down
step-IsNumbered (updated n command result) p h = update_history-IsNumbered n command result p h
step-IsNumbered (next_set least) p h = set_next_hist_num-IsNumbered least p h
step-IsNumbered up p h = recall_before-IsNumbered p.input_history_num p h
step-IsNumbered down p h = recall-IsNumbered (p.input_history_num + 1) p h
step-IsNumbered submitted p h = submit_eval-IsNumbered p h
step-IsNumbered (typed text) p h =
    set_last_command-IsNumbered text (record p { input = text })
      (record { rows_below = h.rows_below; ends = h.ends })

run-IsNumbered : (es : List Event) (p : Page) → IsNumbered p → IsNumbered (run es p)
unfolding run
run-IsNumbered [] p h = h
run-IsNumbered (e ∷ es) p h = run-IsNumbered es (step e p) (step-IsNumbered e p h)

-- On a page that any events have led to from the blank one, the arrow up after a command was
-- submitted puts that command back into the field, also where the server has set the numbers.
pub up_recalls :
    (es : List Event)
    → let p : Page = run es blank in (input_history_up (submit_eval p)).input ≡ p.input
up_recalls es =
    let p : Page = run es blank in
    let h : IsNumbered p =
      run-IsNumbered es blank
        (record { rows_below = λ k le. unfold contains in refl; ends = omega arith }) in
    recalled p.next_hist_num p.input (submit_eval p) (submit_eval-IsAt p h)
