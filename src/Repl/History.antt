-- ===== src/Repl/History.antt =====
-- lib/ag-solo/vats/repl.js: what the REPL shows, and what the browsers have been told.
use mathlib.Core.Path.{subst}
use cosmic_swingset.Repl.{
  Update, Repl, Evaluation, value, promise, throws, Settlement, fulfilled, rejected, Event,
  evaluate, settles, notifies, rebroadcast, exceeds, empty, update_history_slot, rebroadcast_from,
  rebroadcast_to, rebroadcast_history, begun, rejection, evaluated, do_eval, settle, notify_first,
  notify, step, run,
}
use cosmic_swingset.Base.{
  any, any-append, Bool, false, ltb, leb, nat_beq, if◌then◌else◌, Bool-cases, ok, Result-cases,
  nat_eq, string_eq, list_eq, ℕ, zero, suc, ◌+◌, ◌≤◌, ◌≡◌, refl, sym, ◌∙◌, ◌≢◌, inl, inr, ◌&&◌,
  Option, none, some, List, [], ◌∷◌, ◌++◌, arith,
}
use cosmic_swingset.Base.Dict.{lookup, insert, lookup-insert_ne}
use cosmic_swingset.Base.Text.{Text, codes}

-- What a browser that applies every update shows for a command, from what it showed before.
abbrev pub shown : ℕ → Option Text → List Update → Option Text
shown n was [] = was
shown n was (u ∷ rest) = shown n (if nat_beq u.histnum n then u.display else was) rest

shown-append :
    (n : ℕ) (was : Option Text) (us vs : List Update)
    → shown n was (us ++ vs) ≡ shown n (shown n was us) vs
shown-append n was [] vs = refl
shown-append n was (u ∷ us) vs =
    shown-append n (if nat_beq u.histnum n then u.display else was) us vs

module _ {V : Type 0} where
  abbrev pub is_queued : ℕ → Repl V → Bool
  is_queued n r = any (nat_beq n) r.queued

  -- Every browser that applied all updates shows the entry of `display`, for every command whose
  -- update is not in the queue.
  abbrev pub IsShown : Repl V → Type 0
  IsShown r = (n : ℕ) → is_queued n r ≡ false → shown n none r.broadcasts ≡ lookup n r.display

  -- All but one command.
  abbrev IsShownBut : ℕ → Repl V → Type 0
  IsShownBut m r =
      (n : ℕ) → m ≢ n → is_queued n r ≡ false → shown n none r.broadcasts ≡ lookup n r.display

  update_history_slot-IsShown :
      (m : ℕ) (r : Repl V) → IsShownBut m r → IsShown (update_history_slot m r)
  unfolding update_history_slot
  update_history_slot-IsShown m r h n q = ground (
    arith,
    h n,
    shown-append n none r.broadcasts
        (record { histnum = m; command = lookup m r.commands; display = lookup m r.display } ∷ []),
  )

  rebroadcast_from-IsShown :
      (fuel m : ℕ) (r : Repl V) → IsShown r → IsShown (rebroadcast_from fuel m r)
  unfolding rebroadcast_from
  rebroadcast_from-IsShown zero m r h = h
  rebroadcast_from-IsShown (suc fuel) m r h =
      rebroadcast_from-IsShown fuel (m + 1) (update_history_slot m r)
        (update_history_slot-IsShown m r (λ n ne q. h n q))

  rebroadcast_to-IsShown : (h : Option ℕ) (r : Repl V) → IsShown r → IsShown (rebroadcast_to h r)
  unfolding rebroadcast_to
  rebroadcast_to-IsShown none r s = s
  rebroadcast_to-IsShown (some h) r s = rebroadcast_from-IsShown (h + 1) 0 r s

  lookup-rebroadcast_from :
      (fuel m : ℕ) (r : Repl V) → (rebroadcast_from fuel m r).display ≡ r.display
  unfolding rebroadcast_from update_history_slot
  lookup-rebroadcast_from zero m r = refl
  lookup-rebroadcast_from (suc fuel) m r =
      lookup-rebroadcast_from fuel (m + 1) (update_history_slot m r)

  -- The rounds from `m` on tell a browser what `display` holds for each of their commands.
  shown-rebroadcast_from :
      (fuel m n : ℕ) (r : Repl V)
      → shown n none (rebroadcast_from fuel m r).broadcasts
        ≡ (if leb m n && ltb n (m + fuel) then lookup n r.display else shown n none r.broadcasts)
  unfolding rebroadcast_from
  shown-rebroadcast_from zero m n r = ground arith
  shown-rebroadcast_from (suc fuel) m n r =
      shown-rebroadcast_from fuel (m + 1) n (update_history_slot m r)
      ∙ unfold update_history_slot in
        ground (
          arith,
          shown-append n none r.broadcasts (
              record { histnum = m; command = lookup m r.commands; display = lookup m r.display }
              ∷ []),
        )

  shown-rebroadcast_to :
      (h : ℕ) (n : ℕ) (r : Repl V)
      → n ≤ h
      → shown n none (rebroadcast_to (some h) r).broadcasts ≡ lookup n r.display
  unfolding rebroadcast_to
  shown-rebroadcast_to h n r le = shown-rebroadcast_from (h + 1) 0 n r ∙ ground arith

module _ {V : Type 0} (stringify to_text : V → Text) (quote : Text → Text) where
  evaluated-IsShownBut :
      (n : ℕ) (v : Evaluation V) (r : Repl V)
      → IsShownBut n r
      → IsShownBut n (evaluated stringify to_text quote n v r)
  unfolding evaluated
  evaluated-IsShownBut n (value v) r h m ne q =
      h m ne q ∙ sym (lookup-insert_ne n m (stringify v) r.display ne)
  evaluated-IsShownBut n (throws v) r h m ne q =
      h m ne q ∙ sym (lookup-insert_ne n m (codes "exception: " ++ to_text v) r.display ne)
  evaluated-IsShownBut n (promise v) r h m ne q =
      h m ne q
      ∙ sym (
          lookup-insert_ne n m (codes "unresolved Promise") (insert n (stringify v) r.display) ne
          ∙ lookup-insert_ne n m (stringify v) r.display ne)

  -- a command that is not in a queue with one more is another one
  unqueued :
      (n m : ℕ) (ns : List ℕ)
      → any (nat_beq m) (ns ++ n ∷ []) ≡ false
      → (n ≢ m) × (any (nat_beq m) ns ≡ false)
  unqueued n m ns q = (
    ground (arith, any-append (nat_beq m) ns (n ∷ []), q),
    ground (arith, any-append (nat_beq m) ns (n ∷ []), q),
  )

  settle-IsShown :
      (n : ℕ) (s : Settlement V) (r : Repl V)
      → IsShown r
      → IsShown (settle stringify to_text quote n s r)
  unfolding settle
  settle-IsShown n (fulfilled v) r h m q =
      let (ne, old) = unqueued n m r.queued q in
      h m old ∙ sym (lookup-insert_ne n m (stringify v) r.display ne)
  settle-IsShown n (rejected v) r h m q =
      let (ne, old) = unqueued n m r.queued q in
      h m old ∙ sym (lookup-insert_ne n m (rejection stringify to_text quote v) r.display ne)

  notify_first-IsShown :
      (ns : List ℕ) (r : Repl V)
      → IsShown (record r { queued = ns })
      → IsShown (notify_first stringify to_text quote ns (record r { queued = ns }))
  notify_first-IsShown [] r h = h
  notify_first-IsShown (n ∷ ns) r h =
      update_history_slot-IsShown n (record r { queued = ns })
        (λ m ne q. h m (ground (arith, ne, q)))

  do_eval-IsShown :
      (n : ℕ) (body : Text) (v : Evaluation V) (r r' : Repl V)
      → do_eval stringify to_text quote n body v r ≡ ok r'
      → IsShown r
      → IsShown r'
  unfolding do_eval
  do_eval-IsShown n body v r r' e h = elim (Bool-cases (exceeds n r.highest_history)) [
    | inl larger ↦
        let began : IsShown (update_history_slot n (begun n body r)) =
          update_history_slot-IsShown n (begun n body r) (λ m ne q.
            h m q
            ∙ sym (
                lookup-insert_ne n m (codes "working on eval(" ++ body ++ codes ")") r.display
                  ne)) in
        let result : update_history_slot n
              (evaluated stringify to_text quote n v (update_history_slot n (begun n body r)))
            ≡ r' =
          ground (arith, larger) in
        subst IsShown result (
          update_history_slot-IsShown n
            (evaluated stringify to_text quote n v (update_history_slot n (begun n body r)))
            (evaluated-IsShownBut n v (update_history_slot n (begun n body r))
              (λ m ne q. began m q)))
    | inr old ↦ ground (arith, old)
  ]

  step-IsShown :
      (event : Event V) (r : Repl V) → IsShown r → IsShown (step stringify to_text quote event r)
  unfolding step
  step-IsShown (evaluate n body v) r h =
      elim (Result-cases (do_eval stringify to_text quote n body v r)) [
        | inl (r', e) ↦ rw (e, step) (do_eval-IsShown n body v r r' e h)
        | inr (x, e) ↦ rw (e, step) h
      ]
  step-IsShown (settles n s) r h = settle-IsShown n s r h
  step-IsShown notifies r h = unfold notify in notify_first-IsShown r.queued r h
  step-IsShown rebroadcast r h =
      unfold rebroadcast_history in rebroadcast_to-IsShown r.highest_history r h

  run-IsShown :
      (events : List (Event V)) (r : Repl V)
      → IsShown r
      → IsShown (run stringify to_text quote events r)
  unfolding run
  run-IsShown [] r h = h
  run-IsShown (event ∷ rest) r h =
      run-IsShown rest (step stringify to_text quote event r) (step-IsShown event r h)

  -- After any commands, settled promises, queued updates and rebroadcasts, in any order, a browser that
  -- applied every update shows for each command exactly what `display` holds, unless the promise of
  -- the command has settled and the update that this has queued has not run.
  pub browsers_are_current :
      (events : List (Event V)) (n : ℕ)
      → let r : Repl V = run stringify to_text quote events empty in
        is_queued n r ≡ false → shown n none r.broadcasts ≡ lookup n r.display
  browsers_are_current events = run-IsShown events empty (λ n q. unfold lookup in refl)
