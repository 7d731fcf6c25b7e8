-- ===== src/Solo/Basedir/Marked.antt =====
-- The marker file of `initBasedir` in lib/ag-solo/init-basedir.js.
use cosmic_swingset.Base.Text.{Text}
use cosmic_swingset.Solo.Basedir.{
  Place, basedir, connections, html_source, contracts_source, vats_source, html_dir, contracts_dir,
  vats_dir, node_modules, html_file, contract_file, vat_file, helper_dir, helper_address, readme,
  Op, make_dir, read_dir, write, copy, link, add_key, show_key, Found, M, after, ◌>>◌, skip, caught,
  try_or, perform, is_shown, copy_all, make_basedir, copy_contracts, save_versions, make_keys,
  fill_basedir, init_basedir,
}
use cosmic_swingset.Base.{
  Bool-cases, keep, any, any-append, Result, ok, err, ◌≡◌, refl, ◌∙◌, inl, inr, Bool, true, false,
  Option, none, some, List, [], ◌∷◌, arith,
}
use cosmic_swingset.Base.Sort.{place}

abbrev is_marker : Op → Bool
is_marker (copy readme) = true
is_marker _ = false

-- whether the marker was made
abbrev pub is_marked : List Op → Bool
is_marked = any is_marker

abbrev pub is_ok : Result Op (Unit {0}) → Bool
is_ok (ok _) = true
is_ok (err _) = false

-- It does not make the marker.
record Unmarking (m : M) : Type 0 where
  unmarked : (done : List Op) → is_marked done ≡ false → is_marked (m done).1 ≡ false

after-unmarked :
    (r : Result Op (Unit {0}) × List Op) (k : M)
    → is_marked r.1 ≡ false
    → Unmarking k
    → is_marked (after r k).1 ≡ false
after-unmarked (ok _, done) k e h = h.unmarked done e
after-unmarked (err x, done) k e h = e

caught-unmarked :
    (r : Result Op (Unit {0}) × List Op) (k : M)
    → is_marked r.1 ≡ false
    → Unmarking k
    → is_marked (caught r k).1 ≡ false
caught-unmarked (ok _, done) k e h = e
caught-unmarked (err x, done) k e h = h.unmarked done e

>>-Unmarking : {m k : M} → Unmarking m → Unmarking k → Unmarking (m >> k)
>>-Unmarking {m} {k} h g = record {
  unmarked = λ done e. after-unmarked (m done) k (h.unmarked done e) g;
}

try_or-Unmarking : {m k : M} → Unmarking m → Unmarking k → Unmarking (try_or m k)
try_or-Unmarking {m} {k} h g = record {
  unmarked = λ done e. caught-unmarked (m done) k (h.unmarked done e) g;
}

skip-Unmarking : Unmarking skip
skip-Unmarking = record { unmarked = λ done e. e }

module _ (f : Found) where
  perform-Unmarking : (op : Op) → is_marker op ≡ false → Unmarking (perform f op)
  unfolding perform
  perform-Unmarking op plain = record {
    unmarked = λ done e. elim (Bool-cases (f.fails op done)) [
      | inl b ↦ rw (b, perform) e
      | inr b ↦ rw (b, perform) (any-append is_marker done (op ∷ []) ∙ ground (arith, e, plain))
    ];
  }

  copy_all-Unmarking :
      (place : Text → Place) (names : List Text)
      → ((name : Text) → is_marker (copy (place name)) ≡ false)
      → Unmarking (copy_all f place names)
  unfolding copy_all
  copy_all-Unmarking place [] plain = skip-Unmarking
  copy_all-Unmarking place (name ∷ names) plain =
      >>-Unmarking (perform-Unmarking _ (plain name)) (copy_all-Unmarking place names plain)

  shown-Unmarking :
      (place : Text → Place) (names : List Text)
      → ((name : Text) → is_marker (copy (place name)) ≡ false)
      → Unmarking (copy_all f place (keep (is_shown f) names))
  shown-Unmarking place names plain = copy_all-Unmarking place _ plain

  make_basedir-Unmarking : Unmarking (make_basedir f)
  unfolding make_basedir
  make_basedir-Unmarking = try_or-Unmarking (perform-Unmarking (make_dir basedir) refl) (record {
    unmarked =
        λ done e. elim (Bool-cases (f.exists helper_address)) [ inl b ↦ rw b e | inr b ↦ rw b e ];
  })

  copy_contracts-Unmarking : (names : Option (List Text)) → Unmarking (copy_contracts f names)
  unfolding copy_contracts
  copy_contracts-Unmarking none = skip-Unmarking
  copy_contracts-Unmarking (some names) =
      >>-Unmarking (perform-Unmarking (read_dir contracts_source) refl)
        (shown-Unmarking contract_file names (λ n. refl))

  save_versions-Unmarking : Unmarking (save_versions f)
  unfolding save_versions
  save_versions-Unmarking =
      >>-Unmarking
        (>>-Unmarking (perform-Unmarking _ refl) (
          try_or-Unmarking (perform-Unmarking _ refl)
            (>>-Unmarking (perform-Unmarking _ refl) (perform-Unmarking _ refl))))
        (try_or-Unmarking (perform-Unmarking _ refl) skip-Unmarking)

  make_keys-Unmarking : (cosmos : Bool) → Unmarking (make_keys f cosmos)
  unfolding make_keys
  make_keys-Unmarking false = skip-Unmarking
  make_keys-Unmarking true = elim (Bool-cases (f.exists helper_dir)) [
    | inl b ↦ rw b skip-Unmarking
    | inr b ↦ rw b (
        >>-Unmarking
          (>>-Unmarking
            (>>-Unmarking (perform-Unmarking (make_dir helper_dir) refl)
              (perform-Unmarking add_key refl))
            (perform-Unmarking show_key refl))
          (perform-Unmarking (write helper_address f.address) refl))
  ]

  fill_basedir-Unmarking : (json : Text) (cosmos : Bool) → Unmarking (fill_basedir f json cosmos)
  unfolding fill_basedir
  fill_basedir-Unmarking json cosmos =
      >>-Unmarking
        (>>-Unmarking
          (>>-Unmarking
            (>>-Unmarking
              (>>-Unmarking
                (>>-Unmarking
                  (>>-Unmarking
                    (>>-Unmarking
                      (>>-Unmarking
                        (>>-Unmarking
                          (>>-Unmarking
                            (>>-Unmarking
                              (>>-Unmarking make_basedir-Unmarking
                                (perform-Unmarking (write connections json) refl))
                              (perform-Unmarking (make_dir html_dir) refl))
                            (perform-Unmarking (read_dir html_source) refl))
                          (shown-Unmarking html_file f.html_names (λ n. refl)))
                        (perform-Unmarking (make_dir contracts_dir) refl))
                      (copy_contracts-Unmarking f.contract_names))
                    (save_versions-Unmarking))
                  (perform-Unmarking (make_dir vats_dir) refl))
                (perform-Unmarking (read_dir vats_source) refl))
              (copy_all-Unmarking vat_file _ (λ n. refl)))
            (perform-Unmarking (link node_modules) refl))
          (perform-Unmarking _ refl))
        (make_keys-Unmarking cosmos)

  marked_last :
      (r : Result Op (Unit {0}) × List Op)
      → is_marked r.1 ≡ false
      → let (end, done) = after r (perform f (copy readme)) in is_marked done ≡ is_ok end
  unfolding perform
  marked_last (err x, done) e = e
  marked_last (ok _, done) e = elim (Bool-cases (f.fails (copy readme) done)) [
    | inl b ↦ rw (b, perform) e
    | inr b ↦ rw (b, perform) (any-append is_marker done (copy readme ∷ []) ∙ ground (arith, e))
  ]

  -- A run of `initBasedir` makes the marker file exactly if it returns, whichever calls of the file
  -- system and programs fail: a run that throws has not made it.
  pub init_basedir-is_marked :
      (json : Text) (cosmos : Bool)
      → let (end, done) = init_basedir f json cosmos in is_marked done ≡ is_ok end
  unfolding init_basedir
  init_basedir-is_marked json cosmos =
      marked_last (fill_basedir f json cosmos [])
        ((fill_basedir-Unmarking json cosmos).unmarked [] refl)
