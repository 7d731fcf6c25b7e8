-- ===== src/Setup/Shell/Tests.antt =====
-- Runs of `shellEscape`.
use cosmic_swingset.Setup.Shell.{backslash, shell_escape}
use cosmic_swingset.Setup.Shell.Quoted.{is_expansion, read_quoted, read_quoted-backslash}
use cosmic_swingset.Base.{if◌then◌else◌, any, ◌≡◌, refl, none, some, [], ◌∷◌, ◌++◌}
use cosmic_swingset.Base.Text.{Text, codes}

-- a"b
abbrev quote_inside : Text
quote_inside = 97 ∷ 34 ∷ 98 ∷ []

read_quoted-backslash_example :
    read_quoted (backslash quote_inside ++ 34 ∷ codes " c")
    ≡ (if any is_expansion quote_inside then none else some (quote_inside, codes " c"))
read_quoted-backslash_example = read_quoted-backslash quote_inside (codes " c")

-- `$HOME` is put in quotes, and a shell expands it there.
expanded :
    (shell_escape (codes "$HOME") ≡ 34 ∷ (codes "$HOME" ++ 34 ∷ []))
    × (read_quoted (codes "$HOME" ++ 34 ∷ []) ≡ none)
unfolding shell_escape backslash read_quoted
expanded = (refl, refl)
