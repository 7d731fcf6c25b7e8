-- ===== src/Files/Replace.antt =====
-- What is on the disk after `createFile` of setup/files.js, or `atomicReplaceFile` of
-- lib/ag-solo/start.js.
use cosmic_swingset.Files.{Disk, Faults, create_file}
use cosmic_swingset.Base.{
  ok, err, nat_eq, string_eq, list_eq, String, ◌≡◌, ◌≢◌, false, none, some, arith,
}
use cosmic_swingset.Base.Dict.{
  lookup, insert, erase, lookup-insert_self, lookup-insert_ne, lookup-erase_ne, HasDistinctKeys,
  insert-HasDistinctKeys, lookup-erase_self,
}
use cosmic_swingset.Base.Text.{Text}

pub create_file_holds :
    (faults : Faults) (temp path : String) (contents : Text) (disk : Disk)
    → temp ≢ path
    → let (r, after) = create_file faults temp path contents disk in
      lookup path after ≡ elim r [ ok _ ↦ some contents | err _ ↦ lookup path disk ]
unfolding create_file
create_file_holds faults temp path contents disk tp = ground (
  arith,
  lookup-insert_ne temp path faults.partial disk tp,
  lookup-insert_ne temp path contents disk tp,
  lookup-erase_ne temp path (insert temp faults.partial disk) tp,
  lookup-erase_ne temp path (insert temp contents disk) tp,
  lookup-insert_self path contents (erase temp (insert temp contents disk)),
)

-- The path holds the new contents if the call returned, and what it held before if it threw; no
-- other file changes, but for the temporary one, whichever of the calls fail.
pub create_file_atomic :
    (faults : Faults) (temp path other : String) (contents : Text) (disk : Disk)
    → temp ≢ path
    → other ≢ path
    → other ≢ temp
    → let (r, after) = create_file faults temp path contents disk in
      (lookup path after ≡ elim r [ ok _ ↦ some contents | err _ ↦ lookup path disk ])
      × (lookup other after ≡ lookup other disk)
unfolding create_file
create_file_atomic faults temp path other contents disk tp op ot = ground (
  arith,
  lookup-insert_ne temp path faults.partial disk tp,
  lookup-insert_ne temp path contents disk tp,
  lookup-erase_ne temp path (insert temp faults.partial disk) tp,
  lookup-erase_ne temp path (insert temp contents disk) tp,
  lookup-insert_self path contents (erase temp (insert temp contents disk)),
  lookup-insert_ne path other contents (erase temp (insert temp contents disk)),
  lookup-insert_ne temp other faults.partial disk,
  lookup-insert_ne temp other contents disk,
  lookup-erase_ne temp other (insert temp faults.partial disk),
  lookup-erase_ne temp other (insert temp contents disk),
)

-- Nothing is left of the temporary file where the call returns, or throws and `unlink` works.
create_file_leaves_no_temp :
    (faults : Faults) (temp path : String) (contents : Text) (disk : Disk)
    → temp ≢ path
    → HasDistinctKeys disk
    → lookup temp disk ≡ none
    → faults.unlink_fails ≡ false
    → lookup temp (create_file faults temp path contents disk).1 ≡ none
unfolding create_file
create_file_leaves_no_temp faults temp path contents disk tp d new u = ground (
  arith,
  lookup-erase_self temp (insert temp faults.partial disk)
      (insert-HasDistinctKeys temp faults.partial disk d),
  lookup-erase_self temp (insert temp contents disk) (insert-HasDistinctKeys temp contents disk d),
  lookup-insert_ne path temp contents (erase temp (insert temp contents disk)),
)
