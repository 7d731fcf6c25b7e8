-- ===== src/Vats/Pubsub/Tests.antt =====
-- A run of lib/ag-solo/vats/pubsub.js.
use cosmic_swingset.Vats.Pubsub.{
  Event, subscribed, published, make_pubsub, subscribe, publish, run, last_sent,
  subscribers_are_current,
}
use cosmic_swingset.Base.{ℕ, ◌≡◌, refl, none, List, [], ◌∷◌}

abbrev events : List (Event ℕ)
events = subscribed 1 ∷ published 10 ∷ subscribed 2 ∷ published 20 ∷ subscribed 3 ∷ []

subscribers_are_current_example :
    last_sent 3 none (run events make_pubsub).notified ≡ (run events make_pubsub).last_published
unfolding run subscribe publish
subscribers_are_current_example = subscribers_are_current events 3 refl

notified_in_order :
    (run events make_pubsub).notified ≡ (1, 10) ∷ (2, 10) ∷ (1, 20) ∷ (2, 20) ∷ (3, 20) ∷ []
unfolding run subscribe publish
notified_in_order = refl
