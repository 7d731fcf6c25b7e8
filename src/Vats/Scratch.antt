-- ===== src/Vats/Scratch.antt =====
-- `makeScratchPad` of lib/ag-solo/vats/scratch.js, the pad behind vat-uploads.js.
mod Tests
use cosmic_swingset.Base.{
  any, ◌==◌, ==_iff, nat_eq, string_eq, list_eq, ◌≡◌, refl, ◌∙◌, ◌↔◌, false, ◌||◌, Option, none,
  List, [], ◌∷◌, arith,
}
use cosmic_swingset.Base.Dict.{Dict, lookup, contains, insert, contains_iff_lookup}
use cosmic_swingset.Base.Text.{Text, sort_texts, any-sort_texts}

module _ {ℓ} {O : Type ℓ} where
  pub get : Text → Dict Text O → Option O
  get id pad = lookup id pad

  -- the returned id, and the pad
  pub set : Text → O → Dict Text O → Text × Dict Text O
  set id obj pad = (id, insert id obj pad)

  abbrev pub keys : Dict Text O → List Text
  keys [] = []
  keys ((id, _) ∷ pad) = id ∷ keys pad

  -- `list`, also under the name `keys`: the default sort is by code units
  pub list : Dict Text O → List Text
  list pad = sort_texts (keys pad)

  pub values : Dict Text O → List O
  values [] = []
  values ((_, obj) ∷ pad) = obj ∷ values pad

  pub entries : Dict Text O → List (Text × O)
  entries pad = pad

  any-keys : (id : Text) (pad : Dict Text O) → any (λ k. k == id) (keys pad) ≡ contains id pad
  unfolding contains
  any-keys id [] = refl
  any-keys id ((j, _) ∷ pad) = ground (arith, any-keys id pad)

  contains-insert :
      (id other : Text) (obj : O) (pad : Dict Text O)
      → contains other (insert id obj pad) ≡ (id == other || contains other pad)
  unfolding contains insert
  contains-insert id other obj [] = ground arith
  contains-insert id other obj ((j, v) ∷ pad) =
      ground (arith, ==_iff j id, ==_iff j other, ==_iff id other, contains-insert id other obj pad)

  any-list : (id : Text) (pad : Dict Text O) → any (λ k. k == id) (list pad) ≡ contains id pad
  unfolding list
  any-list id pad = any-sort_texts (λ k. k == id) (keys pad) ∙ any-keys id pad

  -- `list` names an id exactly when `get` finds an object for it, and after `set` it names the id
  -- that was set, and every other id as before.
  list-set :
      (id other : Text) (obj : O) (pad : Dict Text O)
      → ((any (λ k. k == other) (list pad) ≡ false) ↔ (get other pad ≡ none))
        × (any (λ k. k == other) (list (set id obj pad).1)
            ≡ (id == other || any (λ k. k == other) (list pad)))
  unfolding get set
  list-set id other obj pad = (
    rw (any-list other pad) (contains_iff_lookup other pad),
    rw (any-list other pad, any-list other (insert id obj pad)) (contains-insert id other obj pad),
  )
