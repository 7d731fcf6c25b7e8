-- ===== src/Setup/SetJson/Tests.antt =====
-- Runs of set-json.js.
use cosmic_swingset.Base.Text.{Text, codes}
use cosmic_swingset.Setup.SetJson.{
  Json, null, primitive, object, end, field, type_error, find, put, set_path, match_assign,
}
use cosmic_swingset.Setup.SetJson.Assigned.{get_path, set_path-get, set_path-others}
use cosmic_swingset.Base.{ok, err, ◌≡◌, refl, some, List, [], ◌∷◌}

-- the overrides of the genesis file
abbrev genesis : Json
genesis = object (
    field (codes "app_state") (object (field (codes "auth") (object end) end))
      (field (codes "height") (primitive (codes "1")) end))

abbrev params_path : List Text
params_path = codes "auth" ∷ codes "params" ∷ []

set_path-get_example :
    (after : Json) × (set_path (codes "app_state") params_path null genesis ≡ ok after)
    × (get_path (codes "app_state") params_path after ≡ some null)
unfolding find
set_path-get_example = set_path-get (codes "app_state") params_path null genesis tt

abbrev changed : Json
changed = object (
    field (codes "app_state")
      (object (field (codes "auth") (object (field (codes "params") null end)) end))
      (field (codes "height") (primitive (codes "1")) end))

set_path-others_example :
    get_path (codes "height") [] changed ≡ get_path (codes "height") [] genesis
unfolding set_path find put
set_path-others_example =
    set_path-others (codes "app_state") params_path (codes "height") [] null genesis changed
      (λ e. cc) refl

-- A path behind a number fails, and a last name of it is ignored.
into_primitive :
    (set_path (codes "height") (codes "a" ∷ codes "b" ∷ []) null genesis ≡ err type_error)
    × (set_path (codes "height") (codes "a" ∷ []) null genesis ≡ ok genesis)
unfolding set_path find put
into_primitive = (refl, refl)

matched : match_assign (codes "a.b=\"c=d\"") ≡ some (codes "a.b", codes "\"c=d\"")
matched = refl
