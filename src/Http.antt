-- ===== src/Http.antt =====
-- lib/ag-solo/vats/vat-http.js: the handler of what browsers send. CapTP is that of @agoric/captp:
-- its `dispatch` is a parameter, and a connection holds the number of the CapTP that was made for
-- it. The handler of the REPL is that of Repl.
pub mod Answers
mod Tests
use cosmic_swingset.Repl.{Repl, Evaluation, Thrown, empty, rebroadcast_history, do_eval}
use cosmic_swingset.Base.{
  if◌then◌else◌, Result, ok, err, nat_eq, string_eq, list_eq, ℕ, zero, suc, ◌+◌, String, Bool, true,
  false, Option, none, some, List, [], ◌∷◌, ◌++◌,
}
use cosmic_swingset.Base.Dict.{Dict, lookup, insert, erase}
use cosmic_swingset.Base.Text.{Text}

pub record Roles : Type 0 where
  pub client : Bool
  pub controller : Bool

-- What reaches `inbound`, by its `type`, with the fields that are read.
pub data Command (V M : Type 0) : Type 0 where
  get_canvas_state : Command V M
  do_eval_command : ℕ → Text → Evaluation V → Command V M
  get_highest_history rebroadcast_command ready_for_client : Command V M
  ctp_open : ℕ → String → Command V M
  ctp_close : ℕ → Command V M
  ctp_error : ℕ → Command V M
  -- `CTP_BOOTSTRAP`, `CTP_CALL`, `CTP_RETURN`, `CTP_RESOLVE`
  ctp_forward : ℕ → M → Command V M
  please_provision : Text → Text → Command V M
  unknown_type : Command V M

pub data Reply : Type 0 where
  empty_object : Reply
  canvas : Text → Reply
  highest_history_is : Option ℕ → Reply
  undefined : Reply
  settled_value : Text → Reply

pub data Rejection : Type 0 where
  -- `handler[obj.type]`, `dispatch` or the provisioner is undefined
  not_a_function : Rejection
  evaluation : Thrown → Rejection
  settled_error : Text → Rejection

-- a promise that a handler returns
pub data Promise : Type 0 where
  client_ready provisioning : Promise

-- How the call of a handler ends.
pub data Ended : Type 0 where
  returned : Reply → Ended
  threw : Rejection → Ended
  waits : Promise → Ended

pub data Sent : Type 0 where
  -- `sendResponse(count, isReject, obj)`
  response : ℕ → Reply → Sent
  rejection_of : ℕ → Rejection → Sent
  -- `sendBroadcast` of the canvas
  update_canvas : Text → Sent

pub record Http (V : Type 0) : Type 0 where
  pub has_device : Bool
  -- the roles of the last `setCommandDevice`
  pub roles : Roles
  pub repl : Repl V
  pub canvas_state : Option Text
  pub conns : Dict ℕ ℕ
  pub made_captps : ℕ
  pub has_provisioner : Bool
  pub is_ready : Bool
  pub is_loaded : Bool
  -- the calls of `inbound` that wait for a promise
  pub pending : List (ℕ × Promise)
  pub sent : List Sent

-- What happens to the vat.
pub data Event (V M : Type 0) : Type 0 where
  device_set : Roles → Event V M
  provisioner_set presences_set ready_resolved : Event V M
  canvas_changed : Text → Event V M
  arrives : ℕ → Command V M → Event V M
  resumes : ℕ → Result Text Text → Event V M

abbrev pub settled_as : Result Text Text → Ended
settled_as (ok v) = returned (settled_value v)
settled_as (err e) = threw (settled_error e)

abbrev pub behind :
    ℕ × Promise
    → Option ((ℕ × Promise) × List (ℕ × Promise))
    → Option ((ℕ × Promise) × List (ℕ × Promise))
behind w none = none
behind w (some (v, vs)) = some (v, w ∷ vs)

-- the `i`-th element, and the others
abbrev pub take_at : ℕ → List (ℕ × Promise) → Option ((ℕ × Promise) × List (ℕ × Promise))
take_at i [] = none
take_at zero (w ∷ ws) = some (w, ws)
take_at (suc i) (w ∷ ws) = behind w (take_at i ws)

module _ {V M : Type 0} (stringify to_text : V → Text) (quote : Text → Text)
    (dispatch : ℕ → M → Result Text Bool) where
  -- `build(E, D)`
  abbrev pub build : Http V
  build = record {
    has_device = false;
    roles = record { client = false; controller = false };
    repl = empty;
    canvas_state = none;
    conns = [];
    made_captps = 0;
    has_provisioner = false;
    is_ready = false;
    is_loaded = false;
    pending = [];
    sent = [];
  }

  -- `setCommandDevice(d, ROLES)`: a new handler, with its own REPL and connections
  pub set_command_device : Roles → Http V → Http V
  set_command_device roles h = record h {
    has_device = true;
    roles = roles;
    repl = empty;
    conns = [];
  }

  -- `setProvisioner(p)`
  pub set_provisioner : Http V → Http V
  set_provisioner h = record h { has_provisioner = true }

  -- `notify(m)` of the canvas's subscriber
  pub notify : Text → Http V → Http V
  notify m h =
      let h' : Http V = record h { canvas_state = some m } in
      if h.has_device then record h' { sent = h.sent ++ update_canvas m ∷ [] } else h'

  -- `setPresences(ps, privateObjects)`, as far as it touches this state
  pub set_presences : Http V → Http V
  set_presences h = record h { is_loaded = true }

  -- `READY.resolve(value)`
  pub resolve_ready : Http V → Http V
  resolve_ready h = record h { is_ready = true }

  -- an empty text is no state
  abbrev pub canvas_reply : Option Text → Reply
  canvas_reply none = empty_object
  canvas_reply (some []) = empty_object
  canvas_reply (some (c ∷ cs)) = canvas (c ∷ cs)

  -- `forward(method)`: what `dispatch` does not know is only logged
  abbrev pub forwarded : Option ℕ → M → Ended
  forwarded none m = threw not_a_function
  forwarded (some captp) m = elim (dispatch captp m) [
    | ok _ ↦ returned undefined
    | err e ↦ threw (settled_error e)
  ]

  -- the methods that `ROLES.client` adds
  pub call_client : Command V M → Http V → Http V × Ended
  call_client (do_eval_command n body v) h =
      elim (do_eval stringify to_text quote n body v h.repl) [
        | ok repl ↦ (record h { repl = repl }, returned empty_object)
        | err e ↦ (h, threw (evaluation e))
      ]
  call_client get_highest_history h = (h, returned (highest_history_is h.repl.highest_history))
  call_client rebroadcast_command h =
      (record h { repl = rebroadcast_history h.repl }, returned undefined)
  call_client ready_for_client h = (h, waits client_ready)
  call_client (ctp_open id url) h = (
    record h { conns = insert id h.made_captps h.conns; made_captps = h.made_captps + 1 },
    returned undefined,
  )
  call_client (ctp_close id) h = (record h { conns = erase id h.conns }, returned undefined)
  call_client (ctp_error id) h = (h, returned undefined)
  call_client (ctp_forward id m) h = (h, forwarded (lookup id h.conns) m)
  call_client _ h = (h, threw not_a_function)

  -- `handler[obj.type](obj)`
  pub call : Command V M → Http V → Http V × Ended
  unfolding call_client
  call get_canvas_state h =
      (h, if h.has_device then returned (canvas_reply h.canvas_state) else threw not_a_function)
  call (please_provision nickname pubkey) h =
      (h, if h.roles.controller then waits provisioning else threw not_a_function)
  call c h = if h.roles.client then call_client c h else (h, threw not_a_function)

  -- what `inbound` sends, or that it waits
  pub answer : ℕ → Ended → Http V → Http V
  answer count (returned r) h = record h { sent = h.sent ++ response count r ∷ [] }
  answer count (threw e) h = record h { sent = h.sent ++ rejection_of count e ∷ [] }
  answer count (waits p) h = record h { pending = h.pending ++ (count, p) ∷ [] }

  -- `inbound(count, obj)`, up to its `await` where the handler returns a promise. Without a device
  -- the handler is empty, and the rejection cannot be sent either.
  pub inbound : ℕ → Command V M → Http V → Http V
  unfolding call answer
  inbound count c h =
      if h.has_device then (let (h', ended) = call c h in answer count ended h') else h

  -- the rest of the `i`-th waiting call, once its promise has settled as it says
  pub resume : ℕ → Result Text Text → Http V → Http V
  unfolding answer
  resume i result h = elim (take_at i h.pending) [
    | none ↦ h
    | some (w, rest) ↦ answer w.0 (settled_as result) (record h { pending = rest })
  ]

  pub step : Event V M → Http V → Http V
  unfolding set_command_device set_provisioner notify set_presences resolve_ready inbound resume
  step (device_set roles) h = set_command_device roles h
  step provisioner_set h = set_provisioner h
  step presences_set h = set_presences h
  step ready_resolved h = resolve_ready h
  step (canvas_changed m) h = notify m h
  step (arrives count c) h = inbound count c h
  step (resumes i result) h = resume i result h

  pub run : List (Event V M) → Http V → Http V
  unfolding step
  run [] h = h
  run (e ∷ es) h = run es (step e h)
