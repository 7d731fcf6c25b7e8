-- ===== src/Setup/SetJson/Assigned.antt =====
-- What an assignment of setup/set-json.js does to the value: the path is set, and no other.
use mathlib.Core.Path.{subst}
use cosmic_swingset.Base.Text.{Text}
use cosmic_swingset.Setup.SetJson.{
  Json, null, primitive, array, object, Fields, end, field, Thrown, find, put, child, in_child,
  set_path,
}
use cosmic_swingset.Base.{
  if◌then◌else◌, Option-cases, Result, ok, err, ◌==◌, ==_iff, ==_refl, nat_eq, string_eq, list_eq,
  ◌≡◌, refl, sym, ap, ◌∙◌, ◌≢◌, ◌⊎◌, inl, inr, Option, none, some, List, [], ◌∷◌, arith,
}

-- the value at a path, through objects only
unfoldable pub get_path : Text → List Text → Json → Option Json
get_path key [] (object fs) = find key fs
get_path key [] _ = none
get_path key (p ∷ ps) (object fs) = elim (find key fs) [ none ↦ none | some j ↦ get_path p ps j ]
get_path key (p ∷ ps) _ = none

-- A path of which every name but the last leads to an object, or is missing.
abbrev pub IsOpen : Text → List Text → Json → Type 0
IsOpen key [] (object fs) = Unit
IsOpen key [] _ = ⊥
IsOpen key (p ∷ ps) (object fs) = IsOpen p ps (child key fs)
IsOpen key (p ∷ ps) _ = ⊥

-- Two paths of which neither is the beginning of the other.
abbrev pub AreApart : Text → List Text → Text → List Text → Type 0
AreApart k [] q qs = k ≢ q
AreApart k (p ∷ ps) q [] = k ≢ q
AreApart k (p ∷ ps) q (r ∷ rs) = (k ≢ q) ⊎ ((k ≡ q) × AreApart p ps r rs)

find-put :
    (key other : Text) (value : Json) (fs : Fields)
    → find other (put key value fs) ≡ (if key == other then some value else find other fs)
unfolding find put
find-put key other value end = refl
find-put key other value (field k j fs) =
    ground (arith, find-put key other value fs, ==_iff k key, ==_iff k other, ==_iff key other)

find-put_self : (key : Text) (value : Json) (fs : Fields) → find key (put key value fs) ≡ some value
find-put_self key value fs = rw (find-put key key value fs, ==_refl key) refl

find-put_ne :
    (key other : Text) (value : Json) (fs : Fields)
    → key ≢ other
    → find other (put key value fs) ≡ find other fs
find-put_ne key other value fs ne = ground (arith, find-put key other value fs, ==_iff key other)

-- An assignment along an open path returns, and the path then has the value.
pub set_path-get :
    (key : Text) (ps : List Text) (value j : Json)
    → IsOpen key ps j
    → (after : Json) × (set_path key ps value j ≡ ok after) × (get_path key ps after ≡ some value)
unfolding set_path get_path
set_path-get key [] value null open_path = absurd open_path
set_path-get key [] value (primitive t) open_path = absurd open_path
set_path-get key [] value (array t) open_path = absurd open_path
set_path-get key [] value (object fs) open_path =
    (object (put key value fs), refl, find-put_self key value fs)
set_path-get key (p ∷ ps) value null open_path = absurd open_path
set_path-get key (p ∷ ps) value (primitive t) open_path = absurd open_path
set_path-get key (p ∷ ps) value (array t) open_path = absurd open_path
set_path-get key (p ∷ ps) value (object fs) open_path =
    let (below, e, g) = set_path-get p ps value (child key fs) open_path in
    (object (put key below fs), rw e refl, rw (get_path, find-put_self key below fs) g)

get_path-missing : (q : Text) (qs : List Text) → get_path q qs (object end) ≡ none
unfolding get_path find
get_path-missing q [] = refl
get_path-missing q (r ∷ rs) = refl

-- what was at a name before, seen from its child
get_path-child :
    (key q : Text) (qs : List Text) (fs : Fields)
    → get_path q qs (child key fs) ≡ get_path key (q ∷ qs) (object fs)
unfolding get_path
get_path-child key q qs fs = elim (Option-cases (find key fs)) [
  | inl e ↦ rw (get_path, child, e) (get_path-missing q qs)
  | inr (j, e) ↦ rw (get_path, child, e) refl
]

get_path-put_ne :
    (key q : Text) (qs : List Text) (value : Json) (fs : Fields)
    → key ≢ q
    → get_path q qs (object (put key value fs)) ≡ get_path q qs (object fs)
unfolding get_path
get_path-put_ne key q [] value fs ne = find-put_ne key q value fs ne
get_path-put_ne key q (r ∷ rs) value fs ne = rw (get_path, find-put_ne key q value fs ne) refl

get_path-put_self :
    (key r : Text) (rs : List Text) (below : Json) (fs : Fields)
    → get_path key (r ∷ rs) (object (put key below fs)) ≡ get_path r rs below
unfolding get_path
get_path-put_self key r rs below fs = rw (get_path, find-put_self key below fs) refl

ok-injective : {a b : Json} → (let r : Result Thrown Json = ok a in r ≡ ok b) → a ≡ b
ok-injective e = cc

below-others :
    (key : Text) (ps : List Text) (q : Text) (qs : List Text) (below : Json) (fs : Fields)
    (p : Text)
    → AreApart key (p ∷ ps) q qs
    → ((r : Text) (rs : List Text)
        → AreApart p ps r rs
        → get_path r rs below ≡ get_path r rs (child key fs))
    → get_path q qs (object (put key below fs)) ≡ get_path q qs (object fs)
below-others key ps q [] below fs p apart h = get_path-put_ne key q [] below fs apart
below-others key ps q (r ∷ rs) below fs p (inl ne) h = get_path-put_ne key q (r ∷ rs) below fs ne
below-others key ps q (r ∷ rs) below fs p (inr (same, apart)) h =
    subst (λ k. get_path k (r ∷ rs) (object (put key below fs)) ≡ get_path k (r ∷ rs) (object fs))
      same (get_path-put_self key r rs below fs ∙ (h r rs apart ∙ get_path-child key r rs fs))

child-others :
    (key : Text) (ps : List Text) (q : Text) (qs : List Text) (after : Json) (fs : Fields)
    (p : Text) (r : Result Thrown Json)
    → AreApart key (p ∷ ps) q qs
    → ((below : Json) (t : Text) (ts : List Text)
        → r ≡ ok below
        → AreApart p ps t ts
        → get_path t ts below ≡ get_path t ts (child key fs))
    → in_child key fs r ≡ ok after
    → get_path q qs after ≡ get_path q qs (object fs)
child-others key ps q qs after fs p (err x) apart h e = absurd cc
child-others key ps q qs after fs p (ok below) apart h e =
    ap (get_path q qs) (sym (ok-injective e))
    ∙ below-others key ps q qs below fs p apart (λ t ts. h below t ts refl)

-- An assignment that returns changes nothing at a path apart from the one that it sets.
pub set_path-others :
    (key : Text) (ps : List Text) (q : Text) (qs : List Text) (value j after : Json)
    → AreApart key ps q qs
    → set_path key ps value j ≡ ok after
    → get_path q qs after ≡ get_path q qs j
unfolding set_path
set_path-others key [] q qs value null after apart e = absurd cc
set_path-others key [] q qs value (primitive t) after apart e =
    ap (get_path q qs) (sym (ok-injective e))
set_path-others key [] q qs value (array t) after apart e = absurd cc
set_path-others key [] q qs value (object fs) after apart e =
    let ne : key ≢ q = last qs apart in
    ap (get_path q qs) (sym (ok-injective e)) ∙ get_path-put_ne key q qs value fs ne
  where
    last : (rs : List Text) → AreApart key [] q rs → key ≢ q
    last rs h = h
set_path-others key (p ∷ ps) q qs value null after apart e = absurd cc
set_path-others key (p ∷ ps) q qs value (primitive t) after apart e = absurd cc
set_path-others key (p ∷ ps) q qs value (array t) after apart e = absurd cc
set_path-others key (p ∷ ps) q qs value (object fs) after apart e =
    child-others key ps q qs after fs p (set_path p ps value (child key fs)) apart
      (λ below t ts f h. set_path-others p ps t ts value (child key fs) below h f) e
