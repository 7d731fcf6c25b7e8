-- ===== src/Files/Guard/Tests.antt =====
-- A run of `guardFile`.
use cosmic_swingset.Files.{Disk, Faults}
use cosmic_swingset.Files.Guard.{Making}
use cosmic_swingset.Base.{nat_eq, string_eq, list_eq, err, false, none, []}
use cosmic_swingset.Base.Text.{codes}

abbrev no_faults : Faults
no_faults = record {
  open_fails = false;
  write_fails = false;
  partial = [];
  close_fails = false;
  rename_fails = false;
  unlink_fails = false;
}

abbrev no_disk : Disk
no_disk = []

-- A maker whose playbook failed: it throws, and makes nothing.
abbrev failing : Making
failing = record { given = none; end = err (codes "Unexpected exit: 2") }
