-- ===== src/ChainSdk/Link/Trusted.antt =====
-- The client that `getClient` of lib/ag-solo/chain-cosmos-sdk.js trusts, what its `deliver` leaves, and
-- what a new block brings in.
use cosmic_swingset.Base.{nat_eq, list_eq}
use cosmic_swingset.ChainSdk.Link.{
  Node, ClientState, ClientError, client_state, check_genesis, defined, with_answers, try_client,
  retried, get_client, Action, helper, unlinked, Failures, DeliverError, send, deliver,
}
use cosmic_swingset.Base.Text.{Text}
use cosmic_swingset.Base.{
  if◌then◌else◌, Result, ok, err, ==_iff, ◌≡◌, refl, sym, ap, ◌∙◌, ◌≢◌, Bool, true, false, not,
  ◌||◌, Option, none, some, List, [], ◌∷◌, arith,
}

module _ {Validators : Type 0} (sha256 : Text → Text) (chain_id gci : Text) where
  -- A node of the expected chain, whose validators the client trusts.
  pub record IsTrusted (node : Node Validators) (c : ClientState Validators) : Type 0 where
    pub genesis : Text
    pub genesis_sent : node.genesis ≡ some (chain_id, genesis)
    pub genesis_known : sha256 genesis ≡ gci
    pub validators_sent : node.validators ≡ some c.trusted
    pub same_chain : c.chain_id ≡ chain_id
    pub synced : node.syncs ≡ true

  check_genesis-ok :
      (id genesis : Text) (v : Validators) (syncs : Bool) (c : ClientState Validators)
      → check_genesis sha256 chain_id gci id genesis v syncs ≡ ok c
      → (id ≡ chain_id)
        × (sha256 genesis ≡ gci)
        × (syncs ≡ true)
        × (c ≡ client_state sha256 chain_id gci v)
  unfolding check_genesis
  check_genesis-ok id genesis v syncs c e =
      ground (arith, e, ==_iff id chain_id, ==_iff (sha256 genesis) gci)

  with_answers-IsTrusted :
      (g : Option (Text × Text)) (vs : Option Validators) (syncs : Bool)
      (c : ClientState Validators)
      → with_answers sha256 chain_id gci g vs syncs ≡ ok (some c)
      → IsTrusted (record { genesis = g; validators = vs; syncs = syncs }) c
  unfolding with_answers
  with_answers-IsTrusted none vs syncs c e = absurd cc
  with_answers-IsTrusted (some g) none syncs c e = absurd cc
  with_answers-IsTrusted (some (id, genesis)) (some v) syncs c e =
      from_checks (check_genesis sha256 chain_id gci id genesis v syncs)
        (check_genesis-ok id genesis v syncs) e
    where
      from_checks :
          (r : Result ClientError (ClientState Validators))
          → ((d : ClientState Validators)
              → r ≡ ok d
              → (id ≡ chain_id)
                × (sha256 genesis ≡ gci)
                × (syncs ≡ true)
                × (d ≡ client_state sha256 chain_id gci v))
          → (let t : Result ClientError (Option (ClientState Validators)) = ok (some c) in
              defined sha256 chain_id gci r ≡ t)
          → IsTrusted
              (record { genesis = some (id, genesis); validators = some v; syncs = syncs })
              c
      from_checks (err x) h f = absurd cc
      from_checks (ok d) h f =
          let same : d ≡ c = cc in
          let (i, k, s, made) = h d refl in
          let state : c ≡ client_state sha256 chain_id gci v = sym same ∙ made in
          record {
            genesis = genesis;
            genesis_sent = ap (λ x. some (x, genesis)) i;
            genesis_known = k;
            validators_sent = ap (λ x. some x.trusted) (sym state);
            same_chain = ap (λ x. x.chain_id) state;
            synced = s;
          }

  with_answers-defined :
      (g : Option (Text × Text)) (vs : Option Validators) (syncs : Bool)
      → with_answers sha256 chain_id gci g vs syncs ≢ ok none
  unfolding with_answers
  with_answers-defined none vs syncs e = cc
  with_answers-defined (some g) none syncs e = cc
  with_answers-defined (some (id, genesis)) (some v) syncs e =
      never (check_genesis sha256 chain_id gci id genesis v syncs) e
    where
      never :
          (r : Result ClientError (ClientState Validators))
          → defined sha256 chain_id gci r ≢ ok none
      never (err x) h = cc
      never (ok d) h = cc

  retried-first :
      (r : Result ClientError (Option (ClientState Validators)))
      (later : Option (Result ClientError (ClientState Validators))) (c : ClientState Validators)
      → r ≢ ok none
      → retried sha256 chain_id gci r later ≡ some (ok c)
      → r ≡ ok (some c)
  retried-first (err x) later c ne e = absurd cc
  retried-first (ok none) later c ne e = absurd (ne refl)
  retried-first (ok (some d)) later c ne e = cc

  -- The first node that is tried decides: where `getClient` gives a client, that node sent a genesis
  -- block of the expected chain with the expected hash, and the validators that the client trusts.
  pub get_client-IsTrusted :
      (node : Node Validators) (nodes : List (Node Validators)) (c : ClientState Validators)
      → get_client sha256 chain_id gci (node ∷ nodes) ≡ some (ok c)
      → IsTrusted node c
  unfolding get_client try_client
  get_client-IsTrusted node nodes c e =
      with_answers-IsTrusted node.genesis node.validators node.syncs c (
        retried-first (with_answers sha256 chain_id gci node.genesis node.validators node.syncs)
          (get_client sha256 chain_id gci nodes) c
          (with_answers-defined node.genesis node.validators node.syncs) e)

-- Whether the helper ran, and what was done last.
abbrev pub ran_helper : List Action → Bool
ran_helper [] = false
ran_helper (helper args stdin ∷ rest) = true
ran_helper (_ ∷ rest) = ran_helper rest

abbrev pub last_action : List Action → Option Action
last_action [] = none
last_action (a ∷ []) = some a
last_action (a ∷ b ∷ rest) = last_action (b ∷ rest)

abbrev pub is_ok : Result DeliverError (Unit {0}) → Bool
is_ok (ok _) = true
is_ok (err _) = false

-- Whichever calls fail: the helper runs exactly if the message was written to the temporary file and
-- the file was closed; the last thing that `deliver` does is to remove that file, if it was opened;
-- and it returns exactly if nothing failed.
pub deliver_cleans_up :
    (f : Failures) (my_addr path body : Text)
    → let (r, actions) = deliver f my_addr path body in
      (ran_helper actions ≡ not (f.open_fails || f.write_fails || f.close_fails))
      × (last_action actions ≡ (if f.open_fails then none else some (unlinked path)))
      × (is_ok r
          ≡ not
              (f.open_fails || f.write_fails || f.close_fails || f.helper_throws || f.unlink_fails))
unfolding deliver send
deliver_cleans_up f my_addr path body = ground arith
