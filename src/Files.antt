-- ===== src/Files.antt =====
-- Files that are replaced by a rename: `createFile` of setup/files.js and `atomicReplaceFile` of
-- lib/ag-solo/start.js. Every call of the file system may fail, as `Faults` says.
pub mod Replace
pub mod Guard
mod Tests
use cosmic_swingset.Base.{if◌then◌else◌, Result, ok, err, nat_eq, string_eq, list_eq, String, Bool}
use cosmic_swingset.Base.Dict.{Dict, insert, erase}
use cosmic_swingset.Base.Text.{Text}

abbrev pub Disk : Type 0
Disk = Dict String Text

-- Which of the calls fail.
pub record Faults : Type 0 where
  pub open_fails : Bool
  pub write_fails : Bool
  -- what had reached the temporary file when the write failed
  pub partial : Text
  pub close_fails : Bool
  pub rename_fails : Bool
  pub unlink_fails : Bool

pub data IoError : Type 0 where
  open_error write_error close_error rename_error : IoError

-- `rename(from, to)`
abbrev pub rename : String → String → Text → Disk → Disk
rename from to contents disk = insert to contents (erase from disk)

-- the `catch` block: the temporary file is removed, unless that fails too
abbrev pub clean_up : Faults → String → Disk → Disk
clean_up faults temp disk = if faults.unlink_fails then disk else erase temp disk

-- `createFile(path, contents)` and `atomicReplaceFile(filename, contents)`: the same steps, with the
-- name that `temp.open` chooses as an argument
pub create_file : Faults → String → String → Text → Disk → Result IoError (Unit {0}) × Disk
create_file faults temp path contents disk =
    if faults.open_fails
    then (err open_error, disk)
    else if faults.write_fails
    then (err write_error, clean_up faults temp (insert temp faults.partial disk))
    else if faults.close_fails
    then (err close_error, clean_up faults temp (insert temp contents disk))
    else if faults.rename_fails
    then (err rename_error, clean_up faults temp (insert temp contents disk))
    else (ok tt, rename temp path contents (insert temp contents disk))
