-- ===== src/Launch.antt =====
-- lib/launch-chain.js: the swingset that runs inside the chain. The kernel and the mailbox are
-- those of @agoric/swingset-vat: parameters. `mailboxStorage` is the chain's store, and the state
-- file is written beside it.
pub mod Saved
mod Tests
use cosmic_swingset.Base.{
  if◌then◌else◌, Result, ok, err, ◌==◌, nat_eq, string_eq, list_eq, ℕ, ◌≡◌, Bool, true, false,
  Option, none, some, List, [], ◌∷◌, ◌++◌,
}
use cosmic_swingset.Base.Dict.{Dict, insert, HasDistinctKeys}
use cosmic_swingset.Base.Text.{Text, codes}

-- What `mbs.exportToData()` holds for a peer, as far as it is read here.
pub record Peer : Type 0 where
  pub outbox : Text
  pub inbound_ack : ℕ

-- The kernel with its mailbox, `K`: what the program calls.
pub record Kernel (K Message : Type 0) : Type 0 where
  -- `mb.deliverInbound(sender, messages, ack)`: whether anything was new
  pub deliver_inbound : Text → List Message → ℕ → K → Bool × K
  -- `controller.run()`
  pub run : K → K
  -- `mbs.exportToData()`
  pub export_to_data : K → Dict Text Peer
  -- `djson.stringify` of that
  pub stringify_data : Dict Text Peer → Text
  -- `djson.stringify({ outbox, ack })`
  pub stringify_peer : Text → ℕ → Text
  -- `JSON.stringify(storage.getState())`
  pub kernel_state : K → Text

pub record Chain (K : Type 0) : Type 0 where
  pub kernel : K
  pub mailbox_storage : Dict Text Text
  pub state_file : Option Text

pub data Thrown : Type 0 where
  non_array : Thrown

-- An argument `messages`: an array, or anything else.
pub data Messages (Message : Type 0) : Type 0 where
  array : List Message → Messages Message
  not_array : Messages Message

-- `mailbox.${peer}`
abbrev pub peer_key : Text → Text
peer_key peer = codes "mailbox." ++ peer

abbrev pub mailbox_key : Text
mailbox_key = codes "mailbox"

module _ {K Message : Type 0} (k : Kernel K Message) where
  open k use {deliver_inbound, run, export_to_data, stringify_data, stringify_peer, kernel_state}

  -- `saveState()`
  pub save_state : Chain K → Chain K
  save_state c = record c {
    state_file = some (kernel_state c.kernel);
    mailbox_storage =
        insert mailbox_key (stringify_data (export_to_data c.kernel)) c.mailbox_storage;
  }

  -- the loop over the peers
  pub publish_peers : Dict Text Peer → Dict Text Text → Dict Text Text
  publish_peers [] storage = storage
  publish_peers ((peer, p) ∷ rest) storage =
      publish_peers rest (insert (peer_key peer) (stringify_peer p.outbox p.inbound_ack) storage)

  -- the end of `launch`: the state is saved at once
  pub launch : K → Dict Text Text → Chain K
  unfolding save_state
  launch built storage =
      save_state (record { kernel = run built; mailbox_storage = storage; state_file = none })

  -- the peers are published if the data is not as before the run
  pub publish_changed : Text → Chain K → Chain K
  unfolding publish_peers
  publish_changed old_data c =
      let new_state = export_to_data c.kernel in
      if stringify_data new_state == old_data
      then c
      else record c { mailbox_storage = publish_peers new_state c.mailbox_storage }

  -- what `deliverInbound` does behind `mb.deliverInbound`, by its answer
  pub take_in : Bool → Text → Chain K → Chain K
  unfolding publish_changed save_state
  take_in true old_data c =
      save_state (publish_changed old_data (record c { kernel = run c.kernel }))
  take_in false old_data c = c

  pub deliver : Text → Messages Message → ℕ → Chain K → Result Thrown (Chain K)
  unfolding take_in
  deliver sender not_array ack c = err non_array
  deliver sender (array messages) ack c =
      let old_data = stringify_data (export_to_data c.kernel) in
      let (fresh, kernel') = deliver_inbound sender messages ack c.kernel in
      ok (take_in fresh old_data (record c { kernel = kernel' }))

-- What the program relies on of the kernel and of its JSON.
pub record Laws {K Message : Type 0} (k : Kernel K Message) : Type 0 where
  -- a mailbox that takes nothing new stays as it is
  pub quiet :
      (sender : Text) (messages : List Message) (ack : ℕ) (s : K)
      → (k.deliver_inbound sender messages ack s).0 ≡ false
      → (k.deliver_inbound sender messages ack s).1 ≡ s
  -- a peer has one entry
  pub distinct : (s : K) → HasDistinctKeys (k.export_to_data s)
  -- deterministic JSON tells different data of the kernel apart
  pub faithful :
      (a b : K)
      → k.stringify_data (k.export_to_data a) ≡ k.stringify_data (k.export_to_data b)
      → k.export_to_data a ≡ k.export_to_data b
