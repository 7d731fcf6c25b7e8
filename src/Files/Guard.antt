-- ===== src/Files/Guard.antt =====
-- `guardFile` of setup/main.js, which makes a file unless it is there. The maker is what it does: the
-- contents that it gives to `makeFile`, and what it returns or throws.
mod Tests
use cosmic_swingset.Files.{Disk, Faults, IoError, create_file}
use cosmic_swingset.Base.{
  if◌then◌else◌, Result, ok, err, nat_eq, string_eq, list_eq, ℕ, String, ◌≡◌, ◌≢◌, ◌⊎◌, Bool,
  Option, none, some, arith,
}
use cosmic_swingset.Base.Dict.{lookup}
use cosmic_swingset.Base.Text.{Text}

-- A maker that returned.
pub record Maker : Type 0 where
  pub contents : Option Text
  -- what it returns, if that is truthy
  pub returned : Option ℕ

-- A maker: what it gives to `makeFile` before its end, which returns what is there if it is truthy, or
-- throws.
pub record Making : Type 0 where
  pub given : Option Text
  pub end : Result Text (Option ℕ)

pub data Thrown : Type 0 where
  maker_threw : Text → Thrown
  mkdir_error : Thrown
  create_error : IoError → Thrown
  returned_error : ℕ → Thrown

-- `await createFile(file, contents)`
abbrev pub created : Result IoError (Unit {0}) × Disk → Result Thrown (Unit {0}) × Disk
created (ok _, disk) = (ok tt, disk)
created (err e, disk) = (err (create_error e), disk)

-- behind the call of `makeFile`: what the maker's end comes to
abbrev pub ended :
    Result Text (Option ℕ) → Result Thrown (Unit {0}) × Disk → Result Thrown (Unit {0}) × Disk
ended (err e) (ok _, disk) = (err (maker_threw e), disk)
ended (ok _) (ok _, disk) = (ok tt, disk)
ended end (err e, disk) = (err e, disk)

-- the file is not there: what the maker did, or a time stamp
pub make_file : Faults → String → String → Text → Making → Disk → Result Thrown (Unit {0}) × Disk
make_file faults temp file now maker disk = elim maker.given [
  | some contents ↦ ended maker.end (created (create_file faults temp file contents disk))
  | none ↦ elim maker.end [
    | err e ↦ (err (maker_threw e), disk)
    | ok none ↦ created (create_file faults temp file now disk)
    | ok (some e) ↦ (err (returned_error e), disk)
  ]
]

-- `guardFile(file, maker)`; the parent may be missing, and not be made
pub guard_file :
    Bool → Faults → String → String → Text → Making → Disk → Result Thrown (Unit {0}) × Disk
unfolding make_file
guard_file mkdir_fails faults temp file now maker disk = elim (lookup file disk) [
  | some _ ↦ (ok tt, disk)
  | none ↦
      if mkdir_fails then (err mkdir_error, disk) else make_file faults temp file now maker disk
]

-- what the file is to hold: what `makeFile` was given, or a time stamp
abbrev pub wanted : Text → Making → Text
wanted now maker = elim maker.given [ none ↦ now | some contents ↦ contents ]

-- the maker gave contents, and threw afterwards
abbrev pub ThrowsLate : Making → Type 0
ThrowsLate maker = (maker.given ≢ none) × ((e : Text) × (maker.end ≡ err e))

-- What a call leaves: if it returns, the file holds what it is to hold. If it throws, the file is as
-- before, or it holds that, and the maker threw after it was made.
abbrev pub IsGuarded : String → Text → Making → Disk → Result Thrown (Unit {0}) × Disk → Type 0
IsGuarded file now maker disk (ok _, after) = lookup file after ≡ some (wanted now maker)
IsGuarded file now maker disk (err _, after) =
    (lookup file after ≡ lookup file disk)
    ⊎ (ThrowsLate maker × (lookup file after ≡ some (wanted now maker)))

-- the same, and nothing at all happens where the file is there
abbrev pub IsLeftOrGuarded :
    Option Text → String → Text → Making → Disk → Result Thrown (Unit {0}) × Disk → Type 0
IsLeftOrGuarded (some _) file now maker disk r = r ≡ (ok tt, disk)
IsLeftOrGuarded none file now maker disk r = IsGuarded file now maker disk r

-- what `createFile` leaves
abbrev IsMade : String → Text → Disk → Result Thrown (Unit {0}) × Disk → Type 0
IsMade file contents disk (ok _, after) = lookup file after ≡ some contents
IsMade file contents disk (err _, after) = lookup file after ≡ lookup file disk
