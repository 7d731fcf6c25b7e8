-- ===== src/Web/Connections/Closed.antt =====
-- lib/ag-solo/web.js: whom `sendJSON` reaches, and connections that were closed.
use mathlib.Core.List.{append_assoc, append-nil}
use cosmic_swingset.Web.Connections.{
  Listener, Event, connected, closed, sends, listening, new_connection, close, send_to_all,
  send_json, step, run,
}
use cosmic_swingset.Base.{
  Bool-cases, Option-cases, keep, ◌==◌, nat_eq, string_eq, list_eq, ℕ, zero, suc, ◌+◌, ◌≤◌, ◌<◌,
  String, ◌≡◌, refl, ap, inl, inr, false, Option, none, some, List, [], ◌∷◌, ◌++◌, map, arith,
}
use cosmic_swingset.Base.Dict.{
  Dict, lookup, lookup-insert, HasDistinctKeys, insert-HasDistinctKeys, erase-HasDistinctKeys,
  lookup-erase_self, lookup-erase-none,
}

module _ {M : Type 0} where
  -- Sending changes nothing but what was sent.
  send_to_all-sent :
      (m : M) (to : Dict ℕ ℕ) (l : Listener M)
      → send_to_all m to l ≡ record l {
        sent = l.sent ++ map (λ p. (p.1, m)) (keep (λ (p : ℕ × ℕ). l.open_sockets p.1) to);
      }
  unfolding send_to_all
  send_to_all-sent m [] l = rw (append-nil l.sent)
  send_to_all-sent m ((id, ws) ∷ rest) l = elim (Bool-cases (l.open_sockets ws)) [
    | inl opened ↦ ground (
      arith,
      opened,
      append_assoc l.sent ((ws, m) ∷ [])
          (map (λ (p : ℕ × ℕ). (p.1, m)) (keep (λ (p : ℕ × ℕ). l.open_sockets p.1) rest)),
      send_to_all-sent m rest (record l { sent = l.sent ++ (ws, m) ∷ [] }),
    )
    | inr shut ↦ ground (arith, shut, send_to_all-sent m rest l)
  ]

  -- A broadcast is sent once to every socket of `broadcasts` that is open, in order, and to nobody
  -- else.
  send_json-broadcast :
      (m : M) (l : Listener M)
      → (send_json none m l).sent
        ≡ l.sent ++ map (λ p. (p.1, m)) (keep (λ (p : ℕ × ℕ). l.open_sockets p.1) l.broadcasts)
  unfolding send_json
  send_json-broadcast m l = ap (λ (k : Listener M). k.sent) (send_to_all-sent m l.broadcasts l)

  -- The connection of an id that was given before is gone for good.
  abbrev IsGone : ℕ → Listener M → Type 0
  IsGone id l = (id ≤ l.last_connection_id) × (lookup id l.points ≡ none)

  send_json-points :
      (to : Option ℕ) (m : M) (l : Listener M)
      → ((send_json to m l).points ≡ l.points)
        × ((send_json to m l).last_connection_id ≡ l.last_connection_id)
  unfolding send_json
  send_json-points none m l = rw (send_to_all-sent m l.broadcasts l) (refl, refl)
  send_json-points (some zero) m l = rw (send_to_all-sent m l.broadcasts l) (refl, refl)
  send_json-points (some (suc n)) m l = elim (Option-cases (lookup (suc n) l.points)) [
    | inl e ↦ ground (arith, e)
    | inr (ws, e) ↦ ground (arith, e)
  ]

  step-IsGone : (id : ℕ) (e : Event M) (l : Listener M) → IsGone id l → IsGone id (step e l)
  unfolding step new_connection close
  step-IsGone id (connected ws url) l (le, g) = elim (Bool-cases (url == "/")) [
    | inl e ↦ ground (arith, e)
    | inr e ↦ ground (arith, e, lookup-insert (l.last_connection_id + 1) id ws l.points)
  ]
  step-IsGone id (closed j ws url) l (le, g) = elim (Bool-cases (url == "/")) [
    | inl e ↦ ground (arith, e)
    | inr e ↦ ground (arith, e, lookup-erase-none id j l.points g)
  ]
  step-IsGone id (sends to m) l (le, g) =
      let (p, n) = send_json-points to m l in (omega (arith, n), rw p g)

  run-IsGone : (id : ℕ) (es : List (Event M)) (l : Listener M) → IsGone id l → IsGone id (run es l)
  unfolding run
  run-IsGone id [] l g = g
  run-IsGone id (e ∷ rest) l g = run-IsGone id rest (step e l) (step-IsGone id e l g)

  step-HasDistinctKeys :
      (e : Event M) (l : Listener M) → HasDistinctKeys l.points → HasDistinctKeys (step e l).points
  unfolding step new_connection close
  step-HasDistinctKeys (connected ws url) l v = elim (Bool-cases (url == "/")) [
    | inl e ↦ rw (e, step, new_connection) v
    | inr e ↦
        rw (e, step, new_connection)
          (insert-HasDistinctKeys (l.last_connection_id + 1) ws l.points v)
  ]
  step-HasDistinctKeys (closed j ws url) l v = elim (Bool-cases (url == "/")) [
    | inl e ↦ rw (e, step, close) v
    | inr e ↦ rw (e, step, close) (erase-HasDistinctKeys j l.points v)
  ]
  step-HasDistinctKeys (sends to m) l v = rw (send_json-points to m l).0 v

  run-HasDistinctKeys :
      (es : List (Event M)) (l : Listener M)
      → HasDistinctKeys l.points
      → HasDistinctKeys (run es l).points
  unfolding run
  run-HasDistinctKeys [] l v = v
  run-HasDistinctKeys (e ∷ rest) l v =
      run-HasDistinctKeys rest (step e l) (step-HasDistinctKeys e l v)

  -- After a point-to-point connection that was given its id by the listener is closed, a message to
  -- that id is sent to nobody, whatever happens in between: no later connection gets the id.
  pub closed_is_silent :
      (before after : List (Event M)) (id ws : ℕ) (url : String) (m : M)
      → let l : Listener M = run before listening in
        0 < id
        → id ≤ l.last_connection_id
        → (url == "/") ≡ false
        → let k : Listener M = run after (close id ws url l).0 in
          (send_json (some id) m k).sent ≡ k.sent
  closed_is_silent before after id ws url m pos given point =
      silent id m (run after (close id ws url l).0) pos (
        run-IsGone id after (close id ws url l).0
          (unfold close in rw point (given, lookup-erase_self id l.points distinct)))
    where
      l : Listener M
      l = run before listening

      distinct : HasDistinctKeys l.points
      distinct = run-HasDistinctKeys before listening tt

      silent :
          (n : ℕ) (x : M) (k : Listener M)
          → 0 < n
          → IsGone n k
          → (send_json (some n) x k).sent ≡ k.sent
      silent zero x k p g = absurd (omega arith)
      silent (suc n) x k p g = unfold send_json in rw (g.1, send_json)
