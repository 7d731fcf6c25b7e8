-- ===== src/Page/Canvas.antt =====
-- The gallery of lib/ag-solo/html/main.js: `initCanvas` draws a board, `updateCanvas` only the pixels
-- that have changed.
pub mod Shown
mod Drawn
mod Tests
use Prim.Native.Nat.{max}
use cosmic_swingset.Base.Dict.{Dict, contains, insert}
use cosmic_swingset.Base.Text.{Text}
use cosmic_swingset.Base.{
  if◌then◌else◌, length, get_elem?, Result, ok, err, ◌==◌, nat_eq, string_eq, list_eq, ℕ, zero, suc,
  ◌+◌, Bool, false, Option, none, some, List, [], ◌∷◌, ◌++◌,
}
use Prim.Native.Nat.{max}

-- columns of colors
abbrev pub Board : Type 0
Board = List (List Text)

-- The elements by their coordinates, each with its `backgroundColor`, if that is a color.
abbrev pub Cells : Type 0
Cells = Dict (List ℕ) (Option Text)

abbrev pub at : ℕ → ℕ → List ℕ
at x y = x ∷ y ∷ []

-- `state[x][y]`
abbrev pub color_at : Board → ℕ → ℕ → Option Text
color_at board x y = elim (get_elem? board x) [ none ↦ none | some column ↦ get_elem? column y ]

-- `maxHeight`
abbrev pub max_height : Board → ℕ
max_height [] = 0
max_height (column ∷ columns) = max (length column) (max_height columns)

-- the inner loop: the elements of a row, from a column on
pub row_from : ℕ → ℕ → Board → Cells
row_from y x [] = []
row_from y x (column ∷ columns) = (at x y, get_elem? column y) ∷ row_from y (x + 1) columns

-- the outer loop, with the rows that are left
pub rows_from : ℕ → ℕ → Board → Cells
unfolding row_from
rows_from zero y board = []
rows_from (suc n) y board = row_from y 0 board ++ rows_from n (y + 1) board

-- `initCanvas(state)`
pub init_canvas : Board → Cells
unfolding rows_from
init_canvas board = rows_from (max_height board) 0 board

pub data CanvasError : Type 0 where
  -- a property of undefined, or of null
  type_error : CanvasError

-- `oldState`, where it is set, and the elements
pub record Gallery : Type 0 where
  pub old : Board
  pub cells : Cells

-- `oldState[x][y] = color`; a place behind the end of a column is never left out
abbrev pub set_in : ℕ → Text → List Text → List Text
set_in y color [] = color ∷ []
set_in zero color (c ∷ cs) = color ∷ cs
set_in (suc y) color (c ∷ cs) = c ∷ set_in y color cs

abbrev pub set_at : ℕ → ℕ → Text → Board → Board
set_at x y color [] = []
set_at zero y color (column ∷ columns) = set_in y color column ∷ columns
set_at (suc x) y color (column ∷ columns) = column ∷ set_at x y color columns

-- `renderPixel(x, y, color)`
pub render_pixel : ℕ → ℕ → Text → Gallery → Result CanvasError Gallery
render_pixel x y color g =
    if contains (at x y) g.cells
    then ok (record { old = set_at x y color g.old; cells = insert (at x y) (some color) g.cells })
    else err type_error

-- `newcolor !== oldState[x][y]`, where the column is there
abbrev pub is_same : Option Text → Text → Bool
is_same none color = false
is_same (some c) color = c == color

-- the body of the loops
pub update_pixel : ℕ → ℕ → Text → Gallery → Result CanvasError Gallery
unfolding render_pixel
update_pixel x y color g = elim (get_elem? g.old x) [
  | none ↦ err type_error
  | some column ↦ if is_same (get_elem? column y) color then ok g else render_pixel x y color g
]

-- the inner loop, from a row on
pub update_column : ℕ → ℕ → List Text → Gallery → Result CanvasError Gallery
unfolding update_pixel
update_column x y [] g = ok g
update_column x y (color ∷ colors) g = elim (update_pixel x y color g) [
  | err e ↦ err e
  | ok h ↦ update_column x (y + 1) colors h
]

-- the outer loop, from a column on
pub update_columns : ℕ → Board → Gallery → Result CanvasError Gallery
unfolding update_column
update_columns x [] g = ok g
update_columns x (column ∷ columns) g = elim (update_column x 0 column g) [
  | err e ↦ err e
  | ok h ↦ update_columns (x + 1) columns h
]

-- `updateCanvas(state)`
pub update_canvas : Board → Option Gallery → Result CanvasError Gallery
unfolding update_columns init_canvas
update_canvas state none = ok (record { old = state; cells = init_canvas state })
update_canvas state (some g) = update_columns 0 state g
