-- ===== src/Setup/Version/Bumped.antt =====
-- `bump-chain-version` of setup/main.js: reading a version back.
use cosmic_swingset.Setup.Version.{
  Version, is_digit, span_digits, with_numeral, with_dot, with_line, parse_revision, parse_minor,
  parse_version, read_version, print_version, increment, version_kind, bump, with_tag,
  bump_chain_version,
}
use cosmic_swingset.Base.{
  any, All, ok, ◌>>=◌, ◌≡◌, refl, ap, ◌∙◌, ◌≢◌, true, false, Option, none, some, [], ◌∷◌, ◌++◌,
  arith,
}
use cosmic_swingset.Base.Text.{is_line_end, Text}

abbrev pub IsDigits : Text → Type 0
IsDigits = All (λ c. is_digit c ≡ true)

-- A text that is not empty and starts with no digit, or is empty.
abbrev pub IsAfterDigits : Text → Type 0
IsAfterDigits [] = Unit
IsAfterDigits (c ∷ cs) = is_digit c ≡ false

-- What `print_version` writes so that it can be read: the numbers are digits and not empty, and the
-- tag does not go on with the last of them, and has no line end.
pub record IsPlain (v : Version) : Type 0 where
  pub major_digits : IsDigits v.major × (v.major ≢ [])
  pub minor_digits : IsDigits v.minor × (v.minor ≢ [])
  pub revision_digits : IsDigits v.revision × (v.revision ≢ [])
  pub tag_start : IsAfterDigits v.tag
  pub tag_line : any is_line_end v.tag ≡ false

span_digits-append :
    (ds rest : Text) → IsDigits ds → IsAfterDigits rest → span_digits (ds ++ rest) ≡ (ds, rest)
span_digits-append [] [] h r = refl
span_digits-append [] (c ∷ cs) h r = ground (arith, r)
span_digits-append (d ∷ ds) rest h r = rw (span_digits-append ds rest h.1 r, h.0) refl

with_numeral-digits :
    (ds rest : Text) (k : Text → Text → Option Version)
    → IsDigits ds
    → ds ≢ []
    → IsAfterDigits rest
    → with_numeral (span_digits (ds ++ rest)) k ≡ k ds rest
with_numeral-digits [] rest k h ne r = absurd (ne refl)
with_numeral-digits (d ∷ ds) rest k h ne r = rw (span_digits-append ds rest h.1 r, h.0) refl

parse-print_fields :
    (major minor revision tag : Text)
    → IsPlain (record { major = major; minor = minor; revision = revision; tag = tag })
    → parse_version (major ++ (b'.' ∷ (minor ++ (b'.' ∷ (revision ++ tag)))))
      ≡ some (record { major = major; minor = minor; revision = revision; tag = tag })
unfolding parse_version parse_minor parse_revision
parse-print_fields major minor revision tag p =
    with_numeral-digits major (b'.' ∷ (minor ++ (b'.' ∷ (revision ++ tag))))
      (λ m rest. with_dot rest (parse_minor m)) p.major_digits.0 p.major_digits.1 refl
    ∙ with_numeral-digits minor (b'.' ∷ (revision ++ tag))
        (λ m rest. with_dot rest (parse_revision major m)) p.minor_digits.0 p.minor_digits.1 refl
    ∙ with_numeral-digits revision tag
        (λ r t. with_line t (record { major = major; minor = minor; revision = r; tag = t }))
        p.revision_digits.0 p.revision_digits.1 p.tag_start
    ∙ rw p.tag_line refl

-- A version that was printed is read back as it was, if its numbers are digits and its tag starts
-- with no digit and has no line end.
pub parse_version-print_version :
    (v : Version) → IsPlain v → parse_version (print_version v) ≡ some v
unfolding print_version
parse_version-print_version v p = parse-print_fields v.major v.minor v.revision v.tag p

read_back : (t : Text) (v : Version) → parse_version t ≡ some v → read_version (some t) ≡ v
unfolding read_version
read_back t v e = rw (e, read_version) refl

-- Without an argument and without `--tag`, a file that holds such a version gets the version with the
-- revision one higher, and nothing else of it changed.
bump_chain_version-default :
    (v : Version)
    → IsPlain v
    → bump_chain_version (some (print_version v)) none none
      ≡ ok (print_version (record v { revision = increment v.revision }))
unfolding bump_chain_version bump
bump_chain_version-default v p =
    ap
      (λ (w : Version).
        bump (version_kind none none) (with_tag none w) >>= λ u. ok (print_version u))
      (read_back (print_version v) v (parse_version-print_version v p))
