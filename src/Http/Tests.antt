-- ===== src/Http/Tests.antt =====
-- Runs of lib/ag-solo/vats/vat-http.js, on values that are texts.
use cosmic_swingset.Http.{
  ready_for_client, ctp_open, unknown_type, Http, Event, ready_resolved, arrives, resumes, build,
  set_command_device, run,
}
use cosmic_swingset.Http.Answers.{arrivals, handled, every_call_is_answered}
use cosmic_swingset.Base.{Result, ok, ℕ, ◌+◌, ◌≡◌, refl, Bool, true, false, List, [], ◌∷◌}
use cosmic_swingset.Base.Text.{Text, codes}

abbrev dispatch : ℕ → ℕ → Result Text Bool
dispatch captp m = ok true

abbrev as_client : Http Text
as_client =
    set_command_device {M = ℕ} (λ v. v) (λ v. v) (λ v. v) dispatch
      (record { client = true; controller = false })
      (build {M = ℕ} (λ v. v) (λ v. v) (λ v. v) dispatch)

abbrev events : List (Event Text ℕ)
events =
    arrives 1 (ctp_open 3 "/captp")
    ∷ arrives 2 ready_for_client
    ∷ arrives 3 unknown_type
    ∷ ready_resolved
    ∷ resumes 0 (ok (codes "yes"))
    ∷ []

every_call_is_answered_example :
    handled
      (λ v. v)
      (λ v. v)
      (λ v. v)
      dispatch
      2
      (run (λ v. v) (λ v. v) (λ v. v) dispatch events as_client)
    ≡ arrivals (λ v. v) (λ v. v) (λ v. v) dispatch 2 events
      + handled (λ v. v) (λ v. v) (λ v. v) dispatch 2 as_client
unfolding set_command_device
every_call_is_answered_example =
    every_call_is_answered (λ v. v) (λ v. v) (λ v. v) dispatch 2 events as_client refl
