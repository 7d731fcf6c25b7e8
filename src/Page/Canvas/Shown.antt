-- ===== src/Page/Canvas/Shown.antt =====
-- `updateCanvas` of lib/ag-solo/html/main.js shows the board that it is given.
use mathlib.Core.List.{append_assoc}
use mathlib.Core.Path.{subst}
use cosmic_swingset.Base.Dict.{lookup, contains, insert, lookup-insert, contains_iff_lookup}
use cosmic_swingset.Base.Text.{Text}
use cosmic_swingset.Page.Canvas.{
  Board, at, color_at, CanvasError, Gallery, set_in, set_at, render_pixel, update_pixel,
  update_column, update_columns, update_canvas,
}
use cosmic_swingset.Base.{
  if◌then◌else◌, Bool-cases, length, get_elem?, length-append, Result, ok, err, ◌==◌, ==_iff,
  nat_eq, string_eq, list_eq, ℕ, zero, suc, ◌+◌, ◌≡◌, refl, sym, ap, ◌∙◌, inl, inr, true, ◌&&◌,
  some, List, [], ◌∷◌, ◌++◌, arith,
}
use cosmic_swingset.Base.{nat_eq, list_eq}

-- every pixel of the board that is remembered is shown
pub record IsShown (g : Gallery) : Type 0 where
  pub shown :
      (x y : ℕ) (c : Text) → color_at g.old x y ≡ some c → lookup (at x y) g.cells ≡ some (some c)

get_elem?-set_in :
    (y z : ℕ) (c before : Text) (column : List Text)
    → get_elem? column y ≡ some before
    → get_elem? (set_in y c column) z ≡ (if y == z then some c else get_elem? column z)
get_elem?-set_in y z c before [] e = absurd cc
get_elem?-set_in zero zero c before (d ∷ ds) e = refl
get_elem?-set_in zero (suc z) c before (d ∷ ds) e = ground arith
get_elem?-set_in (suc y) zero c before (d ∷ ds) e = ground arith
get_elem?-set_in (suc y) (suc z) c before (d ∷ ds) e =
    ground (arith, get_elem?-set_in y z c before ds e)

color_at-set_at :
    (x y u v : ℕ) (c before : Text) (b : Board)
    → color_at b x y ≡ some before
    → color_at (set_at x y c b) u v ≡ (if x == u && y == v then some c else color_at b u v)
color_at-set_at x y u v c before [] e = absurd cc
color_at-set_at zero y zero v c before (column ∷ columns) e =
    ground (arith, get_elem?-set_in y v c before column e)
color_at-set_at zero y (suc u) v c before (column ∷ columns) e = ground arith
color_at-set_at (suc x) y zero v c before (column ∷ columns) e = ground arith
color_at-set_at (suc x) y (suc u) v c before (column ∷ columns) e =
    ground (arith, color_at-set_at x y u v c before columns e)

set_in_same :
    (y : ℕ) (c : Text) (column : List Text)
    → get_elem? column y ≡ some c
    → set_in y c column ≡ column
set_in_same y c [] e = absurd cc
set_in_same zero c (d ∷ ds) e = let same : d ≡ c = cc in rw same refl
set_in_same (suc y) c (d ∷ ds) e = ap (λ t. d ∷ t) (set_in_same y c ds e)

set_at_same : (x y : ℕ) (c : Text) (b : Board) → color_at b x y ≡ some c → set_at x y c b ≡ b
set_at_same x y c [] e = absurd cc
set_at_same zero y c (column ∷ columns) e = ap (λ t. t ∷ columns) (set_in_same y c column e)
set_at_same (suc x) y c (column ∷ columns) e = ap (λ t. column ∷ t) (set_at_same x y c columns e)

-- a pixel that is rendered
rendered-IsShown :
    (x y : ℕ) (c before : Text) (g : Gallery)
    → IsShown g
    → color_at g.old x y ≡ some before
    → IsShown (record { old = set_at x y c g.old; cells = insert (at x y) (some c) g.cells })
rendered-IsShown x y c before g h e = record {
  shown = λ u v d f. ground (
    arith,
    lookup-insert (at x y) (at u v) (some c) g.cells,
    color_at-set_at x y u v c before g.old e,
    f,
    h.shown u v d,
  );
}

-- what a part of `updateCanvas` leaves, where the board is `b` then
record Leaves (r : Result CanvasError Gallery) (b : Board) : Type 0 where
  after : Gallery
  returned : r ≡ ok after
  remembered : after.old ≡ b
  is_shown : IsShown after

color_at-column :
    (b : Board) (x y : ℕ) (before : Text)
    → color_at b x y ≡ some before
    → (column : List Text) × (get_elem? b x ≡ some column) × (get_elem? column y ≡ some before)
color_at-column [] x y before e = absurd cc
color_at-column (column ∷ columns) zero y before e = (column, refl, e)
color_at-column (column ∷ columns) (suc x) y before e = color_at-column columns x y before e

render_pixel-Leaves :
    (x y : ℕ) (c before : Text) (g : Gallery)
    → IsShown g
    → color_at g.old x y ≡ some before
    → Leaves (render_pixel x y c g) (set_at x y c g.old)
unfolding render_pixel
render_pixel-Leaves x y c before g h e =
    let there : contains (at x y) g.cells ≡ true =
      ground (arith, contains_iff_lookup (at x y) g.cells, h.shown x y before e) in
    record {
      after = record { old = set_at x y c g.old; cells = insert (at x y) (some c) g.cells };
      returned = rw there refl;
      remembered = refl;
      is_shown = rendered-IsShown x y c before g h e;
    }

update_pixel-Leaves :
    (x y : ℕ) (c before : Text) (g : Gallery)
    → IsShown g
    → color_at g.old x y ≡ some before
    → Leaves (update_pixel x y c g) (set_at x y c g.old)
unfolding update_pixel
update_pixel-Leaves x y c before g h e =
    let (column, ex, ey) = color_at-column g.old x y before e in
    elim (Bool-cases (before == c)) [
      | inr b ↦ rw (update_pixel, ex, ey, b) (render_pixel-Leaves x y c before g h e)
      | inl b ↦
          let same : before ≡ c = (==_iff before c).0 b in
          let unchanged = set_at_same x y c g.old (e ∙ ap some same) in
          record {
            after = g;
            returned = rw (update_pixel, ex, ey, b) refl;
            remembered = sym unchanged;
            is_shown = h;
          }
    ]

-- the pixel behind `before` columns and `above` pixels
get_elem?-middle :
    (above : List Text) (c : Text) (below : List Text)
    → get_elem? (above ++ c ∷ below) (length above) ≡ some c
get_elem?-middle [] c below = refl
get_elem?-middle (d ∷ above) c below = get_elem?-middle above c below

color_at-middle :
    (before : Board) (above : List Text) (c : Text) (below : List Text) (rest : Board)
    → color_at (before ++ (above ++ c ∷ below) ∷ rest) (length before) (length above) ≡ some c
color_at-middle [] above c below rest = get_elem?-middle above c below
color_at-middle (column ∷ before) above c below rest = color_at-middle before above c below rest

set_in-middle :
    (above : List Text) (c d : Text) (below : List Text)
    → set_in (length above) d (above ++ c ∷ below) ≡ above ++ d ∷ below
set_in-middle [] c d below = refl
set_in-middle (a ∷ above) c d below = ap (λ t. a ∷ t) (set_in-middle above c d below)

set_at-middle :
    (before : Board) (above : List Text) (c d : Text) (below : List Text) (rest : Board)
    → set_at (length before) (length above) d (before ++ (above ++ c ∷ below) ∷ rest)
      ≡ before ++ (above ++ d ∷ below) ∷ rest
set_at-middle [] above c d below rest = ap (λ t. t ∷ rest) (set_in-middle above c d below)
set_at-middle (column ∷ before) above c d below rest =
    ap (λ t. column ∷ t) (set_at-middle before above c d below rest)

-- the rest of a loop, behind a part that returns
continue_with :
    (k : Gallery → Result CanvasError Gallery) (r : Result CanvasError Gallery) (b end : Board)
    → (l : Leaves r b) → Leaves (k l.after) end
    → Leaves (elim r [ err e ↦ err e | ok h ↦ k h ]) end
continue_with k r b end l next = rw l.returned next

update_column-Leaves :
    (before : Board) (above olds colors : List Text) (rest : Board) (g : Gallery)
    → IsShown g
    → g.old ≡ before ++ (above ++ olds) ∷ rest
    → length olds ≡ length colors
    → Leaves
        (update_column (length before) (length above) colors g)
        (before ++ (above ++ colors) ∷ rest)
unfolding update_column
update_column-Leaves before above [] [] rest g h e n = record {
  after = g;
  returned = refl;
  remembered = e;
  is_shown = h;
}
update_column-Leaves before above [] (c ∷ colors) rest g h e n = absurd (omega (arith, n))
update_column-Leaves before above (o ∷ olds) [] rest g h e n = absurd (omega (arith, n))
update_column-Leaves before above (o ∷ olds) (c ∷ colors) rest g h e n =
    let x = length before in
    let y = length above in
    let there : color_at g.old x y ≡ some o =
      ap (λ b. color_at b x y) e ∙ color_at-middle before above o olds rest in
    let l = update_pixel-Leaves x y c o g h there in
    let grown : l.after.old ≡ before ++ ((above ++ c ∷ []) ++ olds) ∷ rest =
      l.remembered
      ∙ (ap (set_at x y c) e
          ∙ (set_at-middle before above o c olds rest
              ∙ ap (λ t. before ++ t ∷ rest) (sym (append_assoc above (c ∷ []) olds)))) in
    let one_more : length (above ++ c ∷ []) ≡ y + 1 = omega (arith, length-append above (c ∷ [])) in
    let later =
      update_column-Leaves before (above ++ c ∷ []) olds colors rest l.after l.is_shown grown
        (omega (arith, n)) in
    continue_with (update_column x (y + 1) colors) (update_pixel x y c g) (set_at x y c g.old)
      (before ++ (above ++ c ∷ colors) ∷ rest) l
      (subst
        (λ k. Leaves (update_column x k colors l.after) (before ++ (above ++ c ∷ colors) ∷ rest))
        one_more
        (subst
          (λ t.
            Leaves (update_column x (length (above ++ c ∷ [])) colors l.after) (before ++ t ∷ rest))
          (append_assoc above (c ∷ []) colors) later))

-- Boards with the same columns, each of the same height.
abbrev pub SameShape : Board → Board → Type 0
SameShape [] [] = Unit
SameShape (a ∷ as') (b ∷ bs) = (length a ≡ length b) × SameShape as' bs
SameShape _ _ = ⊥

update_columns-Leaves :
    (before olds columns : Board) (g : Gallery)
    → IsShown g
    → g.old ≡ before ++ olds
    → SameShape olds columns
    → Leaves (update_columns (length before) columns g) (before ++ columns)
unfolding update_columns
update_columns-Leaves before [] [] g h e shape = record {
  after = g;
  returned = refl;
  remembered = e;
  is_shown = h;
}
update_columns-Leaves before [] (c ∷ columns) g h e shape = absurd shape
update_columns-Leaves before (o ∷ olds) [] g h e shape = absurd shape
update_columns-Leaves before (o ∷ olds) (c ∷ columns) g h e shape =
    let x = length before in
    let l = update_column-Leaves before [] o c olds g h e shape.0 in
    let grown : l.after.old ≡ (before ++ c ∷ []) ++ olds =
      l.remembered ∙ sym (append_assoc before (c ∷ []) olds) in
    let one_more : length (before ++ c ∷ []) ≡ x + 1 =
      omega (arith, length-append before (c ∷ [])) in
    let later =
      update_columns-Leaves (before ++ c ∷ []) olds columns l.after l.is_shown grown shape.1 in
    continue_with (update_columns (x + 1) columns) (update_column x 0 c g) (before ++ c ∷ olds)
      (before ++ c ∷ columns) l
      (subst (λ k. Leaves (update_columns k columns l.after) (before ++ c ∷ columns)) one_more
        (subst (λ t. Leaves (update_columns (length (before ++ c ∷ [])) columns l.after) t)
          (append_assoc before (c ∷ []) columns) later))

-- Where the gallery shows its old board, an update with a board of the same shape returns, remembers
-- the new board, and shows every pixel of it, though only the changed ones are drawn.
pub update_canvas-IsShown :
    (state : Board) (g : Gallery)
    → IsShown g
    → SameShape g.old state
    → (after : Gallery) × (update_canvas state (some g) ≡ ok after)
      × (after.old ≡ state)
      × IsShown after
unfolding update_canvas
update_canvas-IsShown state g h shape =
    let l = update_columns-Leaves [] g.old state g h refl shape in
    (l.after, l.returned, l.remembered, l.is_shown)
