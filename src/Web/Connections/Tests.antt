-- ===== src/Web/Connections/Tests.antt =====
-- Runs of the listener of lib/ag-solo/web.js.
use cosmic_swingset.Web.Connections.{
  Listener, Event, connected, listening, new_connection, close, send, send_json, step, run,
}
use cosmic_swingset.Web.Connections.Closed.{closed_is_silent}
use cosmic_swingset.Base.{nat_eq, string_eq, list_eq, ℕ, ◌≡◌, refl, some, List, [], ◌∷◌, arith}
use cosmic_swingset.Base.Dict.{lookup, insert, erase}

-- A browser with the console, two with CapTP, and the first of them goes.
abbrev before : List (Event ℕ)
before = connected 5 "/" ∷ connected 6 "/captp" ∷ connected 7 "/captp" ∷ []

closed_is_silent_example :
    let l : Listener ℕ = run before listening in
    let k : Listener ℕ = run (connected 8 "/captp" ∷ []) (close 2 6 "/captp" l).0 in
    (send_json (some 2) 9 k).sent ≡ k.sent
unfolding run step new_connection insert
closed_is_silent_example =
    closed_is_silent before (connected 8 "/captp" ∷ []) 2 6 "/captp" 9 (omega arith) (omega arith)
      refl

others_are_reached :
    (send_json (some 3) 9 (close 2 6 "/captp" (run before listening)).0).sent ≡ (7, 9) ∷ []
unfolding run step new_connection close send_json send lookup insert erase
others_are_reached = refl
