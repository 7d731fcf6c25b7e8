-- ===== src/Solo/Basedir/Tests.antt =====
-- A run of `initBasedir`.
use cosmic_swingset.Base.Text.{codes}
use cosmic_swingset.Solo.Basedir.{
  add_key, Found, perform, copy_all, make_basedir, copy_contracts, save_versions, make_keys,
  fill_basedir, init_basedir,
}
use cosmic_swingset.Solo.Basedir.Marked.{is_marked, is_ok, init_basedir-is_marked}
use cosmic_swingset.Base.{err, ◌≡◌, refl, true, false, none, [], ◌∷◌}

-- The key cannot be added.
abbrev no_helper : Found
no_helper = record {
  fails = λ op done. elim op [ add_key ↦ true | _ ↦ false ];
  exists = λ place. false;
  html_names = codes "index.html" ∷ codes ".hidden" ∷ [];
  contract_names = none;
  vat_names = codes "bootstrap.js" ∷ codes "README.md" ∷ [];
  described = [];
  address = [];
}

init_basedir-is_marked_example :
    let (end, done) = init_basedir no_helper (codes "[]") true in is_marked done ≡ is_ok end
init_basedir-is_marked_example = init_basedir-is_marked no_helper (codes "[]") true

stopped : (init_basedir no_helper (codes "[]") true).0 ≡ err add_key
unfolding init_basedir fill_basedir make_basedir perform copy_all copy_contracts save_versions
    make_keys
stopped = refl
