-- ===== src/Setup/Version/Tests.antt =====
-- Runs of `bump-chain-version`.
use cosmic_swingset.Setup.Version.{Version, parse_version, print_version, increment}
use cosmic_swingset.Setup.Version.Bumped.{IsPlain, parse_version-print_version}
use cosmic_swingset.Base.{◌≡◌, refl, some}
use cosmic_swingset.Base.Text.{codes, digits_fuel, to_decimal}

abbrev version : Version
version = record { major = codes "1"; minor = codes "20"; revision = codes "9"; tag = codes "-rc" }

version-IsPlain : IsPlain version
version-IsPlain = record {
  major_digits = ((refl, tt), λ e. cc);
  minor_digits = ((refl, (refl, tt)), λ e. cc);
  revision_digits = ((refl, tt), λ e. cc);
  tag_start = refl;
  tag_line = refl;
}

parse_version-print_version_example : parse_version (print_version version) ≡ some version
parse_version-print_version_example = parse_version-print_version version version-IsPlain

bumped :
    print_version (record version { revision = increment version.revision }) ≡ codes "1.20.10-rc"
unfolding print_version to_decimal digits_fuel
bumped = refl
