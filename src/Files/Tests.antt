-- ===== src/Files/Tests.antt =====
-- Runs of the replacement of a file.
use cosmic_swingset.Files.{Disk, Faults, create_file}
use cosmic_swingset.Files.Replace.{create_file_atomic}
use cosmic_swingset.Base.{
  ok, err, ==_iff, nat_eq, string_eq, list_eq, String, ◌≡◌, true, false, some, [], ◌∷◌,
}
use cosmic_swingset.Base.Dict.{lookup}
use cosmic_swingset.Base.Text.{codes}

abbrev rename_fails_once : Faults
rename_fails_once = record {
  open_fails = false;
  write_fails = false;
  partial = [];
  close_fails = false;
  rename_fails = true;
  unlink_fails = false;
}

abbrev disk : Disk
disk = ("vars.tf", codes "old") ∷ ("network.txt", codes "net") ∷ []

create_file_atomic_example :
    let (r, after) = create_file rename_fails_once "tmp" "vars.tf" (codes "new") disk in
    (lookup "vars.tf" after ≡ elim r [ ok _ ↦ some (codes "new") | err _ ↦ lookup "vars.tf" disk ])
    × (lookup "network.txt" after ≡ lookup "network.txt" disk)
create_file_atomic_example =
    create_file_atomic rename_fails_once "tmp" "vars.tf" "network.txt" (codes "new") disk
      (λ e. cc ((==_iff {A = String} "tmp" "vars.tf").1 e))
      (λ e. cc ((==_iff {A = String} "network.txt" "vars.tf").1 e))
      (λ e. cc ((==_iff {A = String} "network.txt" "tmp").1 e))
