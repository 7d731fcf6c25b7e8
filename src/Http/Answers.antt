-- ===== src/Http/Answers.antt =====
-- lib/ag-solo/vats/vat-http.js: the answers to the calls of `inbound`.
use cosmic_swingset.Http.{
  Command, get_canvas_state, do_eval_command, ctp_close, ctp_forward, please_provision,
  not_a_function, Promise, Ended, returned, threw, waits, Sent, response, rejection_of,
  update_canvas, Http, Event, device_set, provisioner_set, presences_set, ready_resolved,
  canvas_changed, arrives, resumes, settled_as, behind, take_at, set_command_device,
  set_provisioner, notify, set_presences, resolve_ready, call_client, call, answer, inbound, resume,
  step, run,
}
use cosmic_swingset.Repl.{do_eval}
use cosmic_swingset.Base.{
  nat_beq, if◌then◌else◌, Bool-cases, Option-cases, Result, Result-cases, nat_eq, string_eq,
  list_eq, ℕ, zero, suc, ◌+◌, ◌≡◌, refl, sym, ap, ◌∙◌, inl, inr, Bool, true, false, Option, none,
  some, List, [], ◌∷◌, ◌++◌, arith,
}
use cosmic_swingset.Base.Dict.{HasDistinctKeys, lookup-erase_self}
use cosmic_swingset.Base.Text.{Text}

-- the answers to a call
abbrev pub answers : ℕ → List Sent → ℕ
answers n [] = 0
answers n (response c _ ∷ rest) = (if nat_beq c n then 1 else 0) + answers n rest
answers n (rejection_of c _ ∷ rest) = (if nat_beq c n then 1 else 0) + answers n rest
answers n (update_canvas _ ∷ rest) = answers n rest

-- the calls that wait
abbrev pub waiting : ℕ → List (ℕ × Promise) → ℕ
waiting n [] = 0
waiting n ((c, _) ∷ rest) = (if nat_beq c n then 1 else 0) + waiting n rest

answers-append : (n : ℕ) (xs ys : List Sent) → answers n (xs ++ ys) ≡ answers n xs + answers n ys
answers-append n [] ys = omega arith
answers-append n (response c r ∷ xs) ys = ground (arith, answers-append n xs ys)
answers-append n (rejection_of c r ∷ xs) ys = ground (arith, answers-append n xs ys)
answers-append n (update_canvas m ∷ xs) ys = answers-append n xs ys

waiting-append :
    (n : ℕ) (xs ys : List (ℕ × Promise)) → waiting n (xs ++ ys) ≡ waiting n xs + waiting n ys
waiting-append n [] ys = omega arith
waiting-append n ((c, p) ∷ xs) ys = ground (arith, waiting-append n xs ys)

waiting-later :
    (n : ℕ) (v w : ℕ × Promise) (vs rest : List (ℕ × Promise))
    (o : Option ((ℕ × Promise) × List (ℕ × Promise)))
    → ((us : List (ℕ × Promise)) (u : ℕ × Promise)
        → o ≡ some (u, us)
        → waiting n vs ≡ (if nat_beq u.0 n then 1 else 0) + waiting n us)
    → behind v o ≡ some (w, rest)
    → waiting n (v ∷ vs) ≡ (if nat_beq w.0 n then 1 else 0) + waiting n rest
waiting-later n v w vs rest none h e = cc
waiting-later n v w vs rest (some (u, us)) h e =
    let first : u ≡ w = cc in
    let others : v ∷ us ≡ rest = cc in rw (sym first, sym others) (ground (arith, h us u refl))

waiting-take_at :
    (n i : ℕ) (ws rest : List (ℕ × Promise)) (w : ℕ × Promise)
    → take_at i ws ≡ some (w, rest)
    → waiting n ws ≡ (if nat_beq w.0 n then 1 else 0) + waiting n rest
waiting-take_at n i [] rest w e = cc
waiting-take_at n zero (v ∷ vs) rest w e =
    let first : v ≡ w = cc in let others : vs ≡ rest = cc in ground arith
waiting-take_at n (suc i) (v ∷ vs) rest w e =
    waiting-later n v w vs rest (take_at i vs) (waiting-take_at n i vs) e

if-true {ℓ} : {A : Type ℓ} (b : Bool) (x y : A) → b ≡ true → (if b then x else y) ≡ x
if-true true x y e = refl
if-true false x y e = cc

module _ {V M : Type 0} (stringify to_text : V → Text) (quote : Text → Text)
    (dispatch : ℕ → M → Result Text Bool) where
  -- the calls of `inbound` with a number
  abbrev pub arrivals : ℕ → List (Event V M) → ℕ
  arrivals n [] = 0
  arrivals n (arrives c _ ∷ rest) = (if nat_beq c n then 1 else 0) + arrivals n rest
  arrivals n (_ ∷ rest) = arrivals n rest

  -- the calls that were answered or wait
  abbrev pub handled : ℕ → Http V → ℕ
  handled n h = answers n h.sent + waiting n h.pending

  abbrev Keeps : Http V → Http V → Type 0
  Keeps h k = (k.sent ≡ h.sent) × (k.pending ≡ h.pending) × (k.has_device ≡ h.has_device)

  call_client-Keeps :
      (c : Command V M) (h : Http V) → Keeps h (call_client stringify to_text quote dispatch c h).0
  unfolding call_client
  call_client-Keeps (do_eval_command n body v) h =
      elim (Result-cases (do_eval stringify to_text quote n body v h.repl)) [
        | inl (r, e) ↦ ground (arith, e)
        | inr (x, e) ↦ ground (arith, e)
      ]
  call_client-Keeps _ h = ground arith

  call-Keeps :
      (c : Command V M) (h : Http V) → Keeps h (call stringify to_text quote dispatch c h).0
  unfolding call
  call-Keeps get_canvas_state h = ground arith
  call-Keeps (please_provision nickname pubkey) h = ground arith
  call-Keeps c h = elim (Bool-cases h.roles.client) [
    | inl e ↦ ground (arith, e, call_client-Keeps c h)
    | inr e ↦ ground (arith, e)
  ]

  answer-handled :
      (n count : ℕ) (ended : Ended) (h : Http V)
      → handled n (answer stringify to_text quote dispatch count ended h)
        ≡ (if nat_beq count n then 1 else 0) + handled n h
  unfolding answer
  answer-handled n count (returned r) h =
      ground (arith, answers-append n h.sent (response count r ∷ []))
  answer-handled n count (threw e) h =
      ground (arith, answers-append n h.sent (rejection_of count e ∷ []))
  answer-handled n count (waits p) h = ground (arith, waiting-append n h.pending ((count, p) ∷ []))

  inbound-handled :
      (n count : ℕ) (c : Command V M) (h : Http V)
      → h.has_device ≡ true
      → handled n (inbound stringify to_text quote dispatch count c h)
        ≡ (if nat_beq count n then 1 else 0) + handled n h
  unfolding inbound
  inbound-handled n count c h d =
      let r = call stringify to_text quote dispatch c h in
      let (s, p, _) = call-Keeps c h in
      ap (handled n)
        (if-true h.has_device (answer stringify to_text quote dispatch count r.1 r.0) h d)
      ∙ answer-handled n count r.1 r.0
      ∙ rw (s, p) refl

  resume-handled :
      (n i : ℕ) (result : Result Text Text) (h : Http V)
      → handled n (resume stringify to_text quote dispatch i result h) ≡ handled n h
  unfolding resume
  resume-handled n i result h = elim (Option-cases (take_at i h.pending)) [
    | inl e ↦ rw (e, resume) refl
    | inr ((w, rest), e) ↦
        rw (e, resume)
          (answer-handled n w.0 (settled_as result) (record h { pending = rest })
            ∙ omega (arith, waiting-take_at n i h.pending rest w e))
  ]

  answer-has_device :
      (count : ℕ) (ended : Ended) (h : Http V)
      → (answer stringify to_text quote dispatch count ended h).has_device ≡ h.has_device
  unfolding answer
  answer-has_device count (returned r) h = refl
  answer-has_device count (threw e) h = refl
  answer-has_device count (waits p) h = refl

  step-has_device :
      (e : Event V M) (h : Http V)
      → h.has_device ≡ true
      → (step stringify to_text quote dispatch e h).has_device ≡ true
  unfolding step set_command_device set_provisioner set_presences resolve_ready notify inbound
      resume
  step-has_device (device_set roles) h d = refl
  step-has_device provisioner_set h d = d
  step-has_device presences_set h d = d
  step-has_device ready_resolved h d = d
  step-has_device (canvas_changed m) h d = ground arith
  step-has_device (arrives count c) h d =
      let r = call stringify to_text quote dispatch c h in
      ap (λ (k : Http V). k.has_device)
        (if-true h.has_device (answer stringify to_text quote dispatch count r.1 r.0) h d)
      ∙ answer-has_device count r.1 r.0
      ∙ (call-Keeps c h).2
      ∙ d
  step-has_device (resumes i result) h d = elim (Option-cases (take_at i h.pending)) [
    | inl e ↦ rw (e, step, resume) d
    | inr ((w, rest), e) ↦
        rw (e, step, resume)
          (answer-has_device w.0 (settled_as result) (record h { pending = rest }) ∙ d)
  ]

  step-handled :
      (n : ℕ) (e : Event V M) (h : Http V)
      → h.has_device ≡ true
      → handled n (step stringify to_text quote dispatch e h) ≡ arrivals n (e ∷ []) + handled n h
  unfolding step set_command_device set_provisioner set_presences resolve_ready notify
  step-handled n (device_set roles) h d = omega arith
  step-handled n provisioner_set h d = omega arith
  step-handled n presences_set h d = omega arith
  step-handled n ready_resolved h d = omega arith
  step-handled n (canvas_changed m) h d =
      ground (arith, answers-append n h.sent (update_canvas m ∷ []))
  step-handled n (arrives count c) h d = omega (arith, inbound-handled n count c h d)
  step-handled n (resumes i result) h d = omega (arith, resume-handled n i result h)

  arrivals-cons :
      (n : ℕ) (e : Event V M) (es : List (Event V M))
      → arrivals n (e ∷ es) ≡ arrivals n (e ∷ []) + arrivals n es
  arrivals-cons n (device_set roles) es = omega arith
  arrivals-cons n provisioner_set es = omega arith
  arrivals-cons n presences_set es = omega arith
  arrivals-cons n ready_resolved es = omega arith
  arrivals-cons n (canvas_changed m) es = omega arith
  arrivals-cons n (arrives count c) es = omega arith
  arrivals-cons n (resumes i result) es = omega arith

  -- Once the command device is set, every call of `inbound` is answered once, or waits for a
  -- promise, whatever its handler does: for each number, the answers and the waiting calls together
  -- grow by the calls that arrive.
  pub every_call_is_answered :
      (n : ℕ) (es : List (Event V M)) (h : Http V)
      → h.has_device ≡ true
      → handled n (run stringify to_text quote dispatch es h) ≡ arrivals n es + handled n h
  unfolding run
  every_call_is_answered n [] h d = omega arith
  every_call_is_answered n (e ∷ es) h d =
      every_call_is_answered n es (step stringify to_text quote dispatch e h)
        (step-has_device e h d)
      ∙ omega (arith, step-handled n e h d, arrivals-cons n e es)

  -- A call for a CapTP connection that was closed is rejected: `dispatch` is undefined then.
  forward_after_close :
      (id : ℕ) (m : M) (h : Http V)
      → h.roles.client ≡ true
      → HasDistinctKeys h.conns
      → let k : Http V = (call stringify to_text quote dispatch (ctp_close id) h).0 in
        (call stringify to_text quote dispatch (ctp_forward id m) k).1 ≡ threw not_a_function
  unfolding call call_client
  forward_after_close id m h c d = ground (arith, c, lookup-erase_self id h.conns d)
