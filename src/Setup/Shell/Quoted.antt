-- ===== src/Setup/Shell/Quoted.antt =====
-- `shellEscape` of setup/run.js: what a shell reads of an escaped argument.
use cosmic_swingset.Setup.Shell.{backslash}
use cosmic_swingset.Base.{
  nat_beq, if◌then◌else◌, Bool-cases, any, ℕ, ◌≡◌, refl, sym, ap, ◌∙◌, inl, inr, Bool, true, false,
  ◌&&◌, ◌||◌, Option, none, some, [], ◌∷◌, ◌++◌, arith,
}
use cosmic_swingset.Base.Text.{Text}

-- What is no plain text between double quotes: an expansion.
abbrev pub is_expansion : ℕ → Bool
is_expansion c = nat_beq c b'$' || nat_beq c b'`'

-- What a backslash between double quotes takes the meaning from.
abbrev pub is_escapable : ℕ → Bool
is_escapable c = nat_beq c b'"' || nat_beq c b'\\' || nat_beq c b'$' || nat_beq c b'`'

abbrev pub front : ℕ → Option (Text × Text) → Option (Text × Text)
front c none = none
front c (some (t, rest)) = some (c ∷ t, rest)

-- The POSIX rules for a text between double quotes: what it stands for up to the closing quote, and
-- the rest behind that; nothing where it is not closed, or holds an expansion.
unfoldable pub read_quoted : Text → Option (Text × Text)
read_quoted [] = none
read_quoted (c ∷ []) = if nat_beq c b'"' then some ([], []) else none
read_quoted (c ∷ d ∷ ds) =
    let rest = read_quoted (d ∷ ds) in
    let later = read_quoted ds in
    if nat_beq c b'"'
    then some ([], d ∷ ds)
    else if is_expansion c
    then none
    else if nat_beq c b'\\' && is_escapable d
    then front d later
    else front c rest

read_quoted-plain :
    (c : ℕ) (t : Text)
    → (nat_beq c b'"' || nat_beq c b'\\') ≡ false
    → is_expansion c ≡ false
    → read_quoted (c ∷ t) ≡ front c (read_quoted t)
unfolding read_quoted
read_quoted-plain c [] p x = ground (arith, p, x)
read_quoted-plain c (d ∷ ds) p x = ground (arith, p, x)

read_quoted-expansion : (c : ℕ) (t : Text) → is_expansion c ≡ true → read_quoted (c ∷ t) ≡ none
unfolding read_quoted
read_quoted-expansion c [] x = ground (arith, x)
read_quoted-expansion c (d ∷ ds) x = ground (arith, x)

read_quoted-escaped :
    (c : ℕ) (t : Text)
    → (nat_beq c b'"' || nat_beq c b'\\') ≡ true
    → read_quoted (b'\\' ∷ c ∷ t) ≡ front c (read_quoted t)
unfolding read_quoted
read_quoted-escaped c t e = ground (arith, e)

backslash-escaped :
    (c : ℕ) (cs : Text)
    → (nat_beq c b'"' || nat_beq c b'\\') ≡ true
    → backslash (c ∷ cs) ≡ b'\\' ∷ c ∷ backslash cs
unfolding backslash
backslash-escaped c cs e = rw e refl

backslash-plain :
    (c : ℕ) (cs : Text)
    → (nat_beq c b'"' || nat_beq c b'\\') ≡ false
    → backslash (c ∷ cs) ≡ c ∷ backslash cs
unfolding backslash
backslash-plain c cs e = rw e refl

front-if :
    (c : ℕ) (b : Bool) (t rest : Text)
    → front c (if b then none else some (t, rest)) ≡ (if b then none else some (c ∷ t, rest))
front-if c true t rest = refl
front-if c false t rest = refl

any-escaped :
    (c : ℕ) (cs : Text)
    → (nat_beq c b'"' || nat_beq c b'\\') ≡ true
    → any is_expansion cs ≡ any is_expansion (c ∷ cs)
any-escaped c cs e = ground (arith, e)

any-here : (c : ℕ) (cs : Text) → is_expansion c ≡ true → any is_expansion (c ∷ cs) ≡ true
any-here c cs x = rw x refl

any-later :
    (c : ℕ) (cs : Text) → is_expansion c ≡ false → any is_expansion (c ∷ cs) ≡ any is_expansion cs
any-later c cs x = rw x refl

-- Between double quotes, an argument with its quotes and backslashes escaped is read back as it is,
-- unless it has a dollar sign or a backquote: those are expanded, though `shellMetaRegexp` has them.
pub read_quoted-backslash :
    (arg rest : Text)
    → read_quoted (backslash arg ++ b'"' ∷ rest)
      ≡ (if any is_expansion arg then none else some (arg, rest))
unfolding backslash read_quoted
read_quoted-backslash [] [] = refl
read_quoted-backslash [] (r ∷ rest) = refl
read_quoted-backslash (c ∷ cs) rest = elim (Bool-cases (nat_beq c b'"' || nat_beq c b'\\')) [
  | inl e ↦
      ap (λ t. read_quoted (t ++ b'"' ∷ rest)) (backslash-escaped c cs e)
      ∙ read_quoted-escaped c (backslash cs ++ b'"' ∷ rest) e
      ∙ ap (front c) (read_quoted-backslash cs rest)
      ∙ front-if c (any is_expansion cs) cs rest
      ∙ ap (λ b. if b then none else some (c ∷ cs, rest)) (any-escaped c cs e)
  | inr e ↦
      ap (λ t. read_quoted (t ++ b'"' ∷ rest)) (backslash-plain c cs e)
      ∙ (elim (Bool-cases (is_expansion c)) [
        | inl x ↦
            read_quoted-expansion c (backslash cs ++ b'"' ∷ rest) x
            ∙ ap (λ b. if b then none else some (c ∷ cs, rest)) (sym (any-here c cs x))
        | inr x ↦
            read_quoted-plain c (backslash cs ++ b'"' ∷ rest) e x
            ∙ ap (front c) (read_quoted-backslash cs rest)
            ∙ front-if c (any is_expansion cs) cs rest
            ∙ ap (λ b. if b then none else some (c ∷ cs, rest)) (sym (any-later c cs x))
      ])
]
