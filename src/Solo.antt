-- ===== src/Solo.antt =====
-- `buildSwingset` of lib/ag-solo/start.js: when a solo machine runs its kernel, saves its state, and hands
-- its mailboxes to lib/ag-solo/outbound.js. The kernel is that of @agoric/swingset-vat: a parameter. A
-- call runs to its end before the next one starts, which the source does not make sure of.
pub mod Committed
pub mod Basedir
pub mod Start
mod Tests
use cosmic_swingset.Base.{if◌then◌else◌, Result, ok, err, ℕ, Bool, List, [], ◌∷◌, ◌++◌}
use cosmic_swingset.Base.Text.{Text}

-- The kernel with its devices, `K`: what the program calls.
pub record Machine (K Message Command : Type 0) : Type 0 where
  -- `mb.deliverInbound(sender, messages, ack)`: whether anything was new
  pub mailbox_inbound : Text → List Message → ℕ → K → Bool × K
  -- `cm.inboundCommand(obj)`
  pub inbound_command : Command → K → K
  -- `controller.run()`
  pub run : K → K

-- What leaves the kernel, with the kernel as it is then.
pub data Effect (K : Type 0) : Type 0 where
  -- `atomicReplaceFile(stateFile, …)` has returned, or thrown
  saved : K → Effect K
  save_failed : Effect K
  -- `deliver(mbs)`
  delivered : K → Effect K

pub record Solo (K : Type 0) : Type 0 where
  pub kernel : K
  pub effects : List (Effect K)

pub data Thrown : Type 0 where
  non_array save_error : Thrown

-- An argument `messages`: an array, or anything else.
pub data Messages (Message : Type 0) : Type 0 where
  array : List Message → Messages Message
  not_array : Messages Message

-- What reaches a machine, and whether saving the state works then.
pub data Arrival (Message Command : Type 0) : Type 0 where
  inbound : Text → Messages Message → ℕ → Bool → Arrival Message Command
  command : Command → Bool → Arrival Message Command

module _ {K Message Command : Type 0} (m : Machine K Message Command) where
  -- `saveState()`
  pub save_state : Bool → Solo K → Result Thrown (Unit {0}) × Solo K
  save_state works s =
      if works
      then (ok tt, record s { effects = s.effects ++ saved s.kernel ∷ [] })
      else (err save_error, record s { effects = s.effects ++ save_failed ∷ [] })

  -- `deliver(mbs)`, unless the save threw
  pub deliver_saved : Result Thrown (Unit {0}) → Solo K → Result Thrown (Unit {0}) × Solo K
  deliver_saved (ok _) s = (ok tt, record s { effects = s.effects ++ delivered s.kernel ∷ [] })
  deliver_saved (err e) s = (err e, s)

  -- `processKernel()`
  pub process_kernel : Bool → Solo K → Result Thrown (Unit {0}) × Solo K
  unfolding save_state deliver_saved
  process_kernel works s =
      let (r, after) = save_state works (record s { kernel = m.run s.kernel }) in
      deliver_saved r after

  -- `deliverInbound(sender, messages, ack)`
  pub deliver_inbound :
      Text → Messages Message → ℕ → Bool → Solo K → Result Thrown (Unit {0}) × Solo K
  unfolding process_kernel
  deliver_inbound sender not_array ack works s = (err non_array, s)
  deliver_inbound sender (array messages) ack works s =
      let (fresh, kernel') = m.mailbox_inbound sender messages ack s.kernel in
      let taken : Solo K = record s { kernel = kernel' } in
      if fresh then process_kernel works taken else (ok tt, taken)

  -- `deliverInboundCommand(obj)`
  pub deliver_inbound_command : Command → Bool → Solo K → Result Thrown (Unit {0}) × Solo K
  unfolding process_kernel
  deliver_inbound_command obj works s =
      process_kernel works (record s { kernel = m.inbound_command obj s.kernel })

  pub step : Arrival Message Command → Solo K → Solo K
  unfolding deliver_inbound deliver_inbound_command
  step (inbound sender messages ack works) s = (deliver_inbound sender messages ack works s).1
  step (command obj works) s = (deliver_inbound_command obj works s).1

  pub run_all : List (Arrival Message Command) → Solo K → Solo K
  unfolding step
  run_all [] s = s
  run_all (a ∷ as') s = run_all as' (step a s)

  -- `buildSwingset`, with the kernel that it has built
  pub build_swingset : Bool → K → Result Thrown (Unit {0}) × Solo K
  unfolding process_kernel
  build_swingset works kernel = process_kernel works (record { kernel = kernel; effects = [] })
