-- ===== src/Base/Match.antt =====
-- The parts of regular expressions that the code matches texts with.
use Prim.Native.Nat.{ℕ}
use mathlib.Core.Option.{Option, none, some}
use mathlib.Core.List.{List, [], ◌∷◌, ◌++◌}
use cosmic_swingset.Base.Tests.{nat_beq, if◌then◌else◌}
use cosmic_swingset.Base.Text.{Text, is_line_end}

-- a literal at the start, and what follows it
abbrev pub strip : Text → Text → Option Text
strip [] t = some t
strip (a ∷ as') [] = none
strip (a ∷ as') (c ∷ cs) = let rest = strip as' cs in if nat_beq a c then rest else none

abbrev pub first_of {ℓ} : {A : Type ℓ} → Option A → Option A → Option A
first_of (some a) other = some a
first_of none other = other

-- a match at the first place that has one
abbrev pub anywhere {ℓ} : {A : Type ℓ} → (Text → Option A) → Text → Option A
anywhere k [] = k []
anywhere k (c ∷ cs) = let later = anywhere k cs in first_of (k (c ∷ cs)) later

-- `.*` before a match, as long as it can be
abbrev pub within_line {ℓ} : {A : Type ℓ} → (Text → Option A) → Text → Option A
within_line k [] = k []
within_line k (c ∷ cs) =
    let later = within_line k cs in
    if is_line_end c then k (c ∷ cs) else first_of later (k (c ∷ cs))

-- `text.replace(/c/g, ...)`, and other changes unit by unit
abbrev pub replace_all : ℕ → Text → Text → Text
replace_all c new [] = []
replace_all c new (d ∷ ds) =
    let rest = replace_all c new ds in if nat_beq d c then new ++ rest else d ∷ rest

-- `text.split(c)`, its first piece and the others
abbrev pub split_at : ℕ → Text → Text × List Text
split_at c [] = ([], [])
split_at c (d ∷ ds) =
    let (piece, pieces) = split_at c ds in
    if nat_beq d c then ([], piece ∷ pieces) else (d ∷ piece, pieces)

abbrev pub split : ℕ → Text → List Text
split c t = let (piece, pieces) = split_at c t in piece ∷ pieces
