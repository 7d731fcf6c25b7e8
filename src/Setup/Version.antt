-- ===== src/Setup/Version.antt =====
-- `bump-chain-version` of setup/main.js. The numbers of a version are texts of digits until one is
-- bumped; then it is read exactly, as a number below 2 ^ 53 is.
pub mod Bumped
mod Tests
use cosmic_swingset.Base.{
  leb, nat_beq, if◌then◌else◌, any, Result, ok, err, ◌>>=◌, ◌>>◌, ◌==◌, nat_eq, string_eq, list_eq,
  ℕ, ◌+◌, ◌-◌, ◌*◌, Bool, true, ◌&&◌, ◌||◌, Option, none, some, [], ◌∷◌, ◌++◌,
}
use cosmic_swingset.Base.Text.{is_line_end, Text, codes, to_decimal}

pub record Version : Type 0 where
  pub major : Text
  pub minor : Text
  pub revision : Text
  pub tag : Text

-- `\d`
abbrev pub is_digit : ℕ → Bool
is_digit c = leb b'0' c && leb c b'9'

-- `\d*`, which takes all it can, and the rest
abbrev pub span_digits : Text → Text × Text
span_digits [] = ([], [])
span_digits (c ∷ cs) =
    let (ds, rest) = span_digits cs in if is_digit c then (c ∷ ds, rest) else ([], c ∷ cs)

-- `(\d+)`, and then what the rest must match
abbrev pub with_numeral : Text × Text → (Text → Text → Option Version) → Option Version
with_numeral ([], rest) k = none
with_numeral (d ∷ ds, rest) k = k (d ∷ ds) rest

-- `\.`
abbrev pub with_dot : Text → (Text → Option Version) → Option Version
with_dot [] k = none
with_dot (c ∷ cs) k = if nat_beq c b'.' then k cs else none

-- `(.*)$`
abbrev pub with_line : Text → Version → Option Version
with_line t v = if any is_line_end t then none else some v

-- `(\d+)(.*)$`, behind the first two numbers
pub parse_revision : Text → Text → Text → Option Version
parse_revision major minor t = with_numeral (span_digits t) (λ revision tag.
    with_line tag (record { major = major; minor = minor; revision = revision; tag = tag }))

-- `(\d+)\.`, behind the first number
pub parse_minor : Text → Text → Option Version
unfolding parse_revision
parse_minor major t =
    with_numeral (span_digits t) (λ minor rest. with_dot rest (parse_revision major minor))

-- `vstr.match(/^(\d+)\.(\d+)\.(\d+)(.*)$/)`: a dot is no digit, so no shorter match of a number helps
pub parse_version : Text → Option Version
unfolding parse_minor
parse_version t = with_numeral (span_digits t) (λ major rest. with_dot rest (parse_minor major))

abbrev pub zero_version : Text → Version
zero_version tag = record { major = codes "0"; minor = codes "0"; revision = codes "0"; tag = tag }

-- the version of the file, if there is one
pub read_version : Option Text → Version
unfolding parse_version
read_version none = zero_version []
read_version (some v) = elim (parse_version v) [ none ↦ zero_version v | some w ↦ w ]

-- `${major}.${minor}.${revision}${tag}`
pub print_version : Version → Text
print_version v = v.major ++ (b'.' ∷ (v.minor ++ (b'.' ∷ (v.revision ++ v.tag))))

-- `Number(s)` of digits
abbrev pub number_from : ℕ → Text → ℕ
number_from n [] = n
number_from n (c ∷ cs) = number_from (n * 10 + (c - b'0')) cs

-- `Number(s) + 1`, printed
abbrev pub increment : Text → Text
increment s = to_decimal (number_from 0 s + 1)

pub data Thrown : Type 0 where
  not_a_part : Text → Thrown

abbrev pub is_default : Option Text → Bool
is_default none = true
is_default (some kind) = kind == codes "true"

-- `versionKind`, from the first argument and whether `--tag` was given
abbrev pub version_kind : Option Text → Option Text → Option Text
version_kind arg (some tag) = arg
version_kind arg none = if is_default arg then some (codes "revision") else arg

-- the `switch`
pub bump : Option Text → Version → Result Thrown Version
bump none v = ok v
bump (some kind) v =
    if kind == codes "major"
    then ok (record v { major = increment v.major; minor = codes "0"; revision = codes "0" })
    else if kind == codes "minor"
    then ok (record v { minor = increment v.minor; revision = codes "0" })
    else if kind == codes "revision"
    then ok (record v { revision = increment v.revision })
    else err (not_a_part kind)

abbrev pub with_tag : Option Text → Version → Version
with_tag none v = v
with_tag (some tag) v = record v { tag = tag }

-- the new text of the file, from the old one, the first argument and `--tag`
pub bump_chain_version : Option Text → Option Text → Option Text → Result Thrown Text
unfolding read_version print_version bump
bump_chain_version file arg tag = do
  v ← bump (version_kind arg tag) (with_tag tag (read_version file))
  ok (print_version v)
