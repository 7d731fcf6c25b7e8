-- ===== src/Page/Canvas/Tests.antt =====
-- A gallery of two columns.
use cosmic_swingset.Base.Dict.{contains, insert}
use cosmic_swingset.Base.Text.{codes}
use cosmic_swingset.Page.Canvas.{
  Board, row_from, rows_from, init_canvas, type_error, Gallery, render_pixel, update_pixel,
  update_column, update_columns, update_canvas,
}
use cosmic_swingset.Page.Canvas.Shown.{IsShown}
use cosmic_swingset.Page.Canvas.Drawn.{update_all, gallery_is_current}
use cosmic_swingset.Base.{ok, err, nat_eq, string_eq, list_eq, ◌≡◌, refl, none, some, [], ◌∷◌, ◌++◌}
use cosmic_swingset.Base.{nat_eq, list_eq}

abbrev white : Board
white = (codes "white" ∷ codes "white" ∷ []) ∷ (codes "white" ∷ []) ∷ []

abbrev dotted : Board
dotted = (codes "white" ∷ codes "red" ∷ []) ∷ (codes "white" ∷ []) ∷ []

gallery_is_current_example :
    (first after : Gallery) × (update_canvas white none ≡ ok first)
    × (update_all (dotted ∷ []) first ≡ ok after)
    × (after.old ≡ dotted)
    × IsShown after
gallery_is_current_example = gallery_is_current white (dotted ∷ []) ((refl, (refl, tt)), tt)

-- A board that is wider fails, behind the columns that are there.
wider :
    update_canvas
      (dotted ++ (codes "red" ∷ []) ∷ [])
      (some (record { old = white; cells = init_canvas white }))
    ≡ err type_error
unfolding update_canvas init_canvas rows_from row_from update_columns update_column update_pixel
    render_pixel contains insert
wider = refl
