-- ===== src/Vats/Scratch/Tests.antt =====
-- A run of lib/ag-solo/vats/scratch.js.
use cosmic_swingset.Vats.Scratch.{set, list}
use cosmic_swingset.Base.{nat_eq, string_eq, list_eq, ℕ, ◌≡◌, refl, [], ◌∷◌}
use cosmic_swingset.Base.Dict.{Dict, insert}
use cosmic_swingset.Base.Text.{Text, codes, text_le, sort_texts}

abbrev pad : Dict Text ℕ
pad = (codes "b", 2) ∷ (codes "a", 1) ∷ []

listed : list (set (codes "c") 3 pad).1 ≡ codes "a" ∷ codes "b" ∷ codes "c" ∷ []
unfolding list set insert sort_texts text_le
listed = refl
