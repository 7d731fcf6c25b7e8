-- ===== src/Page/Canvas/Drawn.antt =====
-- `initCanvas` of lib/ag-solo/html/main.js draws the whole board, and every update keeps it shown.
use mathlib.Core.Path.{subst}
use cosmic_swingset.Base.Dict.{lookup}
use cosmic_swingset.Base.Text.{Text}
use cosmic_swingset.Page.Canvas.{
  Board, Cells, at, color_at, max_height, row_from, rows_from, init_canvas, CanvasError, Gallery,
  update_canvas,
}
use cosmic_swingset.Page.Canvas.Shown.{IsShown, SameShape, update_canvas-IsShown}
use cosmic_swingset.Base.{
  length, get_elem?, Result, ok, err, nat_eq, string_eq, list_eq, ℕ, zero, suc, ◌+◌, ◌<◌, ◌≡◌, refl,
  sym, ◌∙◌, ◌≢◌, none, some, List, [], ◌∷◌, ◌++◌, arith,
}
use cosmic_swingset.Base.{nat_eq, list_eq}

lookup-row_other :
    (y x u v : ℕ) (columns : Board) (more : Cells)
    → v ≢ y
    → lookup (at u v) (row_from y x columns ++ more) ≡ lookup (at u v) more
unfolding row_from lookup
lookup-row_other y x u v [] more ne = refl
lookup-row_other y x u v (column ∷ columns) more ne =
    ground (arith, ne, lookup-row_other y (x + 1) u v columns more ne)

lookup-row :
    (y x k u : ℕ) (columns : Board) (more : Cells) (c : Text)
    → u ≡ x + k
    → color_at columns k y ≡ some c
    → lookup (at u y) (row_from y x columns ++ more) ≡ some (some c)
unfolding row_from lookup
lookup-row y x k u [] more c q e = absurd cc
lookup-row y x zero u (column ∷ columns) more c q e = ground (arith, q, e)
lookup-row y x (suc k) u (column ∷ columns) more c q e =
    ground (arith, q, lookup-row y (x + 1) k u columns more c (omega (arith, q)) e)

lookup-rows :
    (n y x j v : ℕ) (b : Board) (c : Text)
    → j < n
    → v ≡ y + j
    → color_at b x v ≡ some c
    → lookup (at x v) (rows_from n y b) ≡ some (some c)
unfolding rows_from
lookup-rows zero y x j v b c lt q e = absurd (omega (arith, lt))
lookup-rows (suc n) y x zero v b c lt q e =
    let here : v ≡ y = omega (arith, q) in
    subst (λ w. lookup (at x w) (row_from y 0 b ++ rows_from n (y + 1) b) ≡ some (some c))
      (sym here)
      (lookup-row y 0 x x b (rows_from n (y + 1) b) c (omega arith)
        (subst (λ w. color_at b x w ≡ some c) here e))
lookup-rows (suc n) y x (suc j) v b c lt q e =
    lookup-row_other y 0 x v b (rows_from n (y + 1) b) (omega (arith, q))
    ∙ lookup-rows n (y + 1) x j v b c (omega (arith, lt)) (omega (arith, q)) e

get_elem?-lt :
    (column : List Text) (y : ℕ) (c : Text) → get_elem? column y ≡ some c → y < length column
get_elem?-lt [] y c e = absurd cc
get_elem?-lt (d ∷ ds) zero c e = omega arith
get_elem?-lt (d ∷ ds) (suc y) c e = omega (arith, get_elem?-lt ds y c e)

color_at-lt : (b : Board) (x y : ℕ) (c : Text) → color_at b x y ≡ some c → y < max_height b
color_at-lt [] x y c e = absurd cc
color_at-lt (column ∷ columns) zero y c e = ground (arith, get_elem?-lt column y c e)
color_at-lt (column ∷ columns) (suc x) y c e = ground (arith, color_at-lt columns x y c e)

init_canvas-IsShown : (b : Board) → IsShown (record { old = b; cells = init_canvas b })
unfolding init_canvas
init_canvas-IsShown b = record {
  shown = λ x y c e. lookup-rows (max_height b) 0 x y y b c (color_at-lt b x y c e) (omega arith) e;
}

-- The page gets a board, and then others.
pub update_all : List Board → Gallery → Result CanvasError Gallery
update_all [] g = ok g
update_all (b ∷ bs) g = elim (update_canvas b (some g)) [ err e ↦ err e | ok h ↦ update_all bs h ]

-- the board that the page has got last
abbrev pub last_board : Board → List Board → Board
last_board b [] = b
last_board b (c ∷ cs) = last_board c cs

-- each of the shape of the one before it
abbrev pub SameShapes : Board → List Board → Type 0
SameShapes b [] = Unit
SameShapes b (c ∷ cs) = SameShape b c × SameShapes c cs

update_all-IsShown :
    (bs : List Board) (b : Board) (g : Gallery)
    → g.old ≡ b
    → IsShown g
    → SameShapes b bs
    → (after : Gallery) × (update_all bs g ≡ ok after)
      × (after.old ≡ last_board b bs)
      × IsShown after
unfolding update_all
update_all-IsShown [] b g e h shapes = (g, refl, e, h)
update_all-IsShown (c ∷ cs) b g e h shapes =
    let (next, returned, remembered, shown) =
      update_canvas-IsShown c g h (subst (λ x. SameShape x c) (sym e) shapes.0) in
    let (after, r, m, s) = update_all-IsShown cs c next remembered shown shapes.1 in
    (after, rw (update_all, returned) r, m, s)

-- A page that draws its first board, and then only what changes in boards of the same shape, never
-- fails, and shows every pixel of the board that it got last.
pub gallery_is_current :
    (b : Board) (bs : List Board)
    → SameShapes b bs
    → (first after : Gallery) × (update_canvas b none ≡ ok first)
      × (update_all bs first ≡ ok after)
      × (after.old ≡ last_board b bs)
      × IsShown after
unfolding update_canvas
gallery_is_current b bs shapes =
    let first : Gallery = record { old = b; cells = init_canvas b } in
    let (after, r, m, s) = update_all-IsShown bs b first refl (init_canvas-IsShown b) shapes in
    (first, after, refl, r, m, s)
