-- ===== src/Web/Connections.antt =====
-- The connections of lib/ag-solo/web.js: `newConnection`, the handlers of a socket, and `sendJSON`.
-- A message is opaque, but for its connection id; JSON is the same on both sides.
pub mod Closed
mod Tests
use cosmic_swingset.Base.{
  nat_beq, if◌then◌else◌, ◌==◌, nat_eq, string_eq, list_eq, ℕ, zero, suc, ◌+◌, String, Bool, true,
  false, Option, none, some, List, [], ◌∷◌, ◌++◌,
}
use cosmic_swingset.Base.Dict.{Dict, lookup, insert, erase}

pub record Listener (M : Type 0) : Type 0 where
  pub last_connection_id : ℕ
  -- `points`, from a connection id to its socket
  pub points : Dict ℕ ℕ
  -- `broadcasts`, likewise
  pub broadcasts : Dict ℕ ℕ
  -- the sockets whose `readyState` is `OPEN`
  pub open_sockets : ℕ → Bool
  -- `ws.send`, in order
  pub sent : List (ℕ × M)

-- What `inboundCommand` is called with.
pub data Command (M : Type 0) : Type 0 where
  ctp_open : ℕ → String → Command M
  ctp_close : ℕ → Command M
  message : ℕ → M → Command M

abbrev pub set_open : ℕ → Bool → (ℕ → Bool) → ℕ → Bool
set_open ws b f v = if nat_beq v ws then b else f v

-- What happens at a listener, with the arguments of the handlers.
pub data Event (M : Type 0) : Type 0 where
  connected : ℕ → String → Event M
  closed : ℕ → ℕ → String → Event M
  sends : Option ℕ → M → Event M

module _ {M : Type 0} where
  abbrev pub listening : Listener M
  listening = record {
    last_connection_id = 0;
    points = [];
    broadcasts = [];
    open_sockets = λ _. false;
    sent = [];
  }

  -- `newConnection(ws, req)`, with the commands that it passes on
  pub new_connection : ℕ → String → Listener M → Listener M × List (Command M)
  new_connection ws url l =
      let id = l.last_connection_id + 1 in
      if url == "/"
      then (
        record l {
          last_connection_id = id;
          broadcasts = insert id ws l.broadcasts;
          open_sockets = set_open ws true l.open_sockets;
        },
        [],
      )
      else (
        record l {
          last_connection_id = id;
          points = insert id ws l.points;
          open_sockets = set_open ws true l.open_sockets;
        },
        ctp_open id url ∷ [],
      )

  -- The `close` handler of a connection. `broadcasts.delete(ws)` looks for the socket among keys
  -- that are connection ids, and so deletes nothing.
  pub close : ℕ → ℕ → String → Listener M → Listener M × List (Command M)
  close id ws url l =
      let closed : Listener M = record l { open_sockets = set_open ws false l.open_sockets } in
      if url == "/"
      then (closed, [])
      else (record closed { points = erase id closed.points }, ctp_close id ∷ [])

  -- `send(ws, msg)`
  pub send : M → ℕ → Listener M → Listener M
  send m ws l = if l.open_sockets ws then record l { sent = l.sent ++ (ws, m) ∷ [] } else l

  pub send_to_all : M → Dict ℕ ℕ → Listener M → Listener M
  unfolding send
  send_to_all m [] l = l
  send_to_all m ((_, ws) ∷ rest) l = send_to_all m rest (send m ws l)

  -- `sendJSON({ connectionID, ...rest })`; an id of 0 or none is a broadcast
  pub send_json : Option ℕ → M → Listener M → Listener M
  unfolding send send_to_all
  send_json none m l = send_to_all m l.broadcasts l
  send_json (some zero) m l = send_to_all m l.broadcasts l
  send_json (some (suc n)) m l = elim (lookup (suc n) l.points) [ none ↦ l | some ws ↦ send m ws l ]

  pub step : Event M → Listener M → Listener M
  step (connected ws url) l = (new_connection ws url l).0
  step (closed id ws url) l = (close id ws url l).0
  step (sends to m) l = send_json to m l

  pub run : List (Event M) → Listener M → Listener M
  unfolding step
  run [] l = l
  run (e ∷ rest) l = run rest (step e l)
