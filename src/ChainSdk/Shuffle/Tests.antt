-- ===== src/ChainSdk/Shuffle/Tests.antt =====
-- A run of `shuffle`.
use cosmic_swingset.ChainSdk.Shuffle.{swap, shuffle_from, shuffle}
use cosmic_swingset.Base.{ℕ, ◌/◌, ◌≡◌, refl, List, [], ◌∷◌}

abbrev addresses : List ℕ
addresses = 5 ∷ 6 ∷ 5 ∷ 7 ∷ []

shuffled : shuffle (λ i. i / 2) addresses ≡ 5 ∷ 5 ∷ 7 ∷ 6 ∷ []
unfolding shuffle shuffle_from swap
shuffled = refl
