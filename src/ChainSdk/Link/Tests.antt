-- ===== src/ChainSdk/Link/Tests.antt =====
-- Runs of `getClient` and `deliver`.
use cosmic_swingset.Base.{nat_eq, list_eq}
use cosmic_swingset.ChainSdk.Link.{
  Node, rpc_error, check_genesis, with_answers, try_client, get_client, unlinked, Failures, deliver,
}
use cosmic_swingset.ChainSdk.Link.Trusted.{
  IsTrusted, get_client-IsTrusted, ran_helper, last_action, is_ok, deliver_cleans_up,
}
use cosmic_swingset.Base.Text.{codes}
use cosmic_swingset.Base.{err, ℕ, ◌≡◌, refl, true, false, none, some, [], ◌∷◌}

-- a node of the chain `c1`, with a hash that is the text itself
abbrev good_node : Node ℕ
good_node = record { genesis = some (codes "c1", codes "block"); validators = some 4; syncs = true }

get_client-IsTrusted_example :
    IsTrusted
      (λ t. t)
      (codes "c1")
      (codes "block")
      good_node
      (record { trusted = 4; height = 1; chain_id = codes "c1" })
unfolding get_client try_client with_answers check_genesis
get_client-IsTrusted_example =
    get_client-IsTrusted (λ t. t) (codes "c1") (codes "block") good_node [] _ refl

-- A node that does not answer ends the loop, and the next one is not tried.
not_retried :
    get_client
      (λ t. t)
      (codes "c1")
      (codes "block")
      (record { genesis = none; validators = none; syncs = false } ∷ good_node ∷ [])
    ≡ some (err rpc_error)
unfolding get_client try_client with_answers
not_retried = refl

abbrev close_fails_once : Failures
close_fails_once = record {
  open_fails = false;
  write_fails = false;
  close_fails = true;
  helper_throws = false;
  unlink_fails = false;
}

deliver_cleans_up_example :
    let (r, actions) = deliver close_fails_once (codes "addr") (codes "/tmp/f") (codes "[[],3]") in
    (ran_helper actions ≡ false)
    × (last_action actions ≡ some (unlinked (codes "/tmp/f")))
    × (is_ok r ≡ false)
deliver_cleans_up_example =
    deliver_cleans_up close_fails_once (codes "addr") (codes "/tmp/f") (codes "[[],3]")
