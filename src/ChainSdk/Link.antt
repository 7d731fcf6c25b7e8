-- ===== src/ChainSdk/Link.antt =====
-- `getMailbox`, `getClient`, the handler of new blocks and `deliver` of
-- lib/ag-solo/chain-cosmos-sdk.js. JSON, SHA-256, the light client and the helper are parameters.
pub mod Trusted
mod Tests
use cosmic_swingset.ChainSdk.Retry.{Cancelled, Attempt, retry_helper}
use cosmic_swingset.Base.Text.{Text, codes}
use cosmic_swingset.Base.{
  if◌then◌else◌, Result, ok, err, ◌==◌, nat_eq, string_eq, list_eq, ℕ, Bool, Option, none, some,
  List, [], ◌∷◌, ◌++◌,
}
use cosmic_swingset.Base.{
  if◌then◌else◌, Result, ok, err, ◌==◌, nat_eq, list_eq, ℕ, Bool, Option, none, some, List, [], ◌∷◌,
  ◌++◌,
}

-- what the chain keeps for this machine; `outbox` is undefined in the default `{}`
pub record Mailbox (Message : Type 0) : Type 0 where
  pub outbox : Option (List Message)
  pub ack : ℕ

module _ {Message : Type 0}
    -- `JSON.parse(stdout).value`, `JSON.parse` of a string, and of the mailbox
    (parse_value parse_string : Text → Option Text)
    (parse_mailbox : Text → Option (Mailbox Message)) where
  -- `parseReturn` of `getMailbox`: what does not parse is undefined
  pub parse_return : Text → Result (Unit {0}) (Option (Mailbox Message))
  parse_return stdout = elim (parse_value stdout) [
    | none ↦ ok none
    | some value ↦ elim (parse_string value) [
      | none ↦ ok none
      | some text ↦ ok (parse_mailbox text)
    ]
  ]

  -- `defaultIfCancelled`, `{}`
  abbrev pub no_mailbox : Mailbox Message
  no_mailbox = record { outbox = none; ack = 0 }

  -- `getMailbox()`, over the tries that its helper makes
  unfoldable pub get_mailbox : List (Attempt Text) → Option (Result Cancelled (Mailbox Message))
  get_mailbox tries = retry_helper parse_return (some no_mailbox) tries

  -- `inbound(GCI, outbox, ack)`, where there is an outbox
  abbrev pub take_in : Mailbox Message → List (List Message × ℕ)
  take_in m = elim m.outbox [ none ↦ [] | some messages ↦ (messages, m.ack) ∷ [] ]

  -- the handler of `update`: the calls of `inbound`; a failure is logged
  pub on_update : List (Attempt Text) → List (List Message × ℕ)
  unfolding get_mailbox
  on_update tries = elim (get_mailbox tries) [
    | none ↦ []
    | some (err e) ↦ []
    | some (ok m) ↦ take_in m
  ]

-- What a node answers to `getClient`.
pub record Node (Validators : Type 0) : Type 0 where
  -- `rpc.genesis()`: its chain id, and its text by `djson.stringify`
  pub genesis : Option (Text × Text)
  -- `rpc.validators`, at the last known height
  pub validators : Option Validators
  -- the client's first event is `synced`
  pub syncs : Bool

pub record ClientState (Validators : Type 0) : Type 0 where
  pub trusted : Validators
  pub height : ℕ
  pub chain_id : Text

pub data ClientError : Type 0 where
  rpc_error : ClientError
  -- `does not match expected chainID`
  wrong_chain_id : Text → ClientError
  -- `does not match expected GCI`
  wrong_gci : Text → ClientError
  client_error : ClientError

module _ {Validators : Type 0} (sha256 : Text → Text) (chain_id gci : Text) where
  -- `clientState`
  abbrev pub client_state : Validators → ClientState Validators
  client_state v = record { trusted = v; height = 1; chain_id = chain_id }

  -- the checks of the genesis block, and the client that is made behind them
  pub check_genesis : Text → Text → Validators → Bool → Result ClientError (ClientState Validators)
  check_genesis id genesis v syncs =
      if id == chain_id
      then (if sha256 genesis == gci
          then (if syncs then ok (client_state v) else err client_error)
          else err (wrong_gci (sha256 genesis)))
      else err (wrong_chain_id id)

  abbrev pub defined :
      Result ClientError (ClientState Validators)
      → Result ClientError (Option (ClientState Validators))
  defined (err e) = err e
  defined (ok c) = ok (some c)

  -- what comes of the answers to the two calls
  pub with_answers :
      Option (Text × Text)
      → Option Validators
      → Bool
      → Result ClientError (Option (ClientState Validators))
  unfolding check_genesis
  with_answers none validators syncs = err rpc_error
  with_answers (some g) none syncs = err rpc_error
  with_answers (some (id, genesis)) (some v) syncs = defined (check_genesis id genesis v syncs)

  -- the function that `getClient` gives to `retryRpcAddr`; it never returns undefined
  pub try_client : Node Validators → Result ClientError (Option (ClientState Validators))
  unfolding with_answers
  try_client node = with_answers node.genesis node.validators node.syncs

  -- a round of the loop of `retryRpcAddr`, and the rounds behind it
  abbrev pub retried :
      Result ClientError (Option (ClientState Validators))
      → Option (Result ClientError (ClientState Validators))
      → Option (Result ClientError (ClientState Validators))
  retried (err e) later = some (err e)
  retried (ok none) later = later
  retried (ok (some c)) later = some (ok c)

  -- `getClient()`, over the nodes that `retryRpcAddr` would try; `none` while none has ended the loop
  pub get_client : List (Node Validators) → Option (Result ClientError (ClientState Validators))
  unfolding try_client
  get_client [] = none
  get_client (node ∷ nodes) = retried (try_client node) (get_client nodes)

-- What `deliver` does, in order.
pub data Action : Type 0 where
  -- the temporary file at a path
  opened : Text → Action
  written : Text → Text → Action
  closed : Text → Action
  -- the helper, with its arguments and its standard input
  helper : List Text → Text → Action
  unlinked : Text → Action

-- Which of the calls fail.
pub record Failures : Type 0 where
  pub open_fails : Bool
  pub write_fails : Bool
  pub close_fails : Bool
  pub helper_throws : Bool
  pub unlink_fails : Bool

pub data DeliverError : Type 0 where
  open_error write_error close_error helper_error unlink_error : DeliverError

-- `args`
abbrev pub deliver_args : Text → Text → List Text
deliver_args my_addr path =
    codes "tx"
    ∷ codes "swingset"
    ∷ codes "deliver"
    ∷ my_addr
    ∷ (b'@' ∷ path)
    ∷ codes "--from"
    ∷ codes "ag-solo"
    ∷ codes "-ojson"
    ∷ codes "--broadcast-mode"
    ∷ codes "block"
    ∷ codes "--yes"
    ∷ []

-- the file is written and closed, whether the write fails or not; what is thrown, if anything
abbrev pub write_and_close : Failures → Option DeliverError
write_and_close f =
    if f.close_fails then some close_error else if f.write_fails then some write_error else none

-- the body of the outer `try`, behind the opening of the file
pub send : Failures → Text → Text → Text → Result DeliverError (Unit {0}) × List Action
send f my_addr path body =
    let wrote = if f.write_fails then [] else written path body ∷ [] in
    let done = wrote ++ closed path ∷ [] in
    elim (write_and_close f) [
      | some e ↦ (err e, done)
      | none ↦
          let all = done ++ helper (deliver_args my_addr path) (codes "mmmmmmmm\n") ∷ [] in
          if f.helper_throws then (err helper_error, all) else (ok tt, all)
    ]

-- the `finally`, which replaces what was thrown where it throws too
abbrev pub clean_up :
    Failures
    → Text
    → Result DeliverError (Unit {0}) × List Action
    → Result DeliverError (Unit {0}) × List Action
clean_up f path (r, actions) =
    (if f.unlink_fails then err unlink_error else r, actions ++ unlinked path ∷ [])

-- `deliver(newMessages, acknum)`, with their JSON as `body`, for the path that `temp.open` chooses
pub deliver : Failures → Text → Text → Text → Result DeliverError (Unit {0}) × List Action
unfolding send
deliver f my_addr path body =
    if f.open_fails
    then (err open_error, [])
    else let (r, actions) = clean_up f path (send f my_addr path body) in (r, opened path ∷ actions)
