-- ===== src/Vats/Pledger/Tests.antt =====
-- Deposits of the pledger.
use cosmic_swingset.Base.Dict.{lookup, insert}
use cosmic_swingset.Base.Text.{Text, codes}
use cosmic_swingset.Vats.Pledger.{
  get_pledger, get_purse, with_purse, check_assay, deposit_all, cook,
}
use cosmic_swingset.Vats.Pledger.Deposits.{held, IsSound, overlap_loses, deposit_all-held}
use cosmic_swingset.Base.{
  if◌then◌else◌, ◌==◌, nat_eq, string_eq, list_eq, ◌+◌, ◌≡◌, refl, true, none, some, [], ◌∷◌,
}
use cosmic_swingset.Base.{nat_eq, list_eq}

abbrev me : Text
me = codes "me"

get_pledger-IsSound : IsSound me get_pledger
unfolding get_purse lookup
get_pledger-IsSound = record {
  purse_made = λ assay purse e. absurd cc;
  apart = λ a b purse e f. absurd cc;
  new_empty = λ purse le. refl;
}

overlap_loses_example :
    (check_assay me 4 10 get_pledger ≡ (true, get_pledger))
    × (check_assay me 4 7 get_pledger ≡ (true, get_pledger))
    × (held me 4 (with_purse me 4 7 (with_purse me 4 10 get_pledger)) ≡ 7)
unfolding get_purse lookup
overlap_loses_example = overlap_loses me 4 10 7 get_pledger get_pledger-IsSound refl

deposit_all-held_example : held me 4 (deposit_all me 4 10 get_pledger) ≡ held me 4 get_pledger + 10
deposit_all-held_example = deposit_all-held me 4 4 10 get_pledger get_pledger-IsSound

cooked :
    cook (λ assay. if assay == 4 then some (codes "moola_1") else none) ((4, 10) ∷ (5, 1) ∷ []) []
    ≡ ((4, 10, codes "moola_1") ∷ (5, 1, codes "unregistered") ∷ [], (4, codes "moola_1") ∷ [])
unfolding cook lookup insert
cooked = refl
