-- ===== src/Screen/Canonical.antt =====
-- src/screen.rs: `render_row` gives each row in one shape only.
use mathlib.Core.List.{reverse, reverse-reverse}
use super_herdr.Common.{ℕ, ◌≡◌, ◌≢◌, false, Option, none, some, List, [], ◌∷◌, map, arith}
use super_herdr.Common.Order.{Text}
use super_herdr.Screen.{Style, Run, Row, range_from}
use super_herdr.Common.Texts.{trim_end_idem}
use super_herdr.Screen.Render.{
  Vt100, Cell, cell_style, cell_text, is_blank, push_text, push_cell, push_cells, pop_blank,
  trim_last, render_row,
}

-- Neighbouring runs differ in style.
abbrev pub IsMerged : Row → Type 0
IsMerged [] = Unit {0}
IsMerged (run ∷ []) = Unit {0}
IsMerged (run ∷ next ∷ runs) = (run.style ≢ next.style) × IsMerged (next ∷ runs)

-- The first run of the list, if there is one, is not a run of plain blanks.
abbrev pub StartsVisible : Row → Type 0
StartsVisible [] = Unit {0}
StartsVisible (run ∷ runs) = is_blank run ≡ false

push_text-IsMerged :
    (t : Text) (style : Style) (runs : Row) → IsMerged runs → IsMerged (push_text t style runs)
unfolding push_text
push_text-IsMerged t style [] m = tt
push_text-IsMerged t style (run ∷ []) m = ground arith
push_text-IsMerged t style (run ∷ next ∷ runs) m = ground arith

push_cell-IsMerged :
    (cell : Option Cell) (runs : Row) → IsMerged runs → IsMerged (push_cell cell runs)
unfolding push_cell
push_cell-IsMerged none runs m = m
push_cell-IsMerged (some cell) runs m =
    ground (arith, push_text-IsMerged (cell_text cell) (cell_style cell) runs m)

push_cells-IsMerged :
    (cells : List (Option Cell)) (runs : Row) → IsMerged runs → IsMerged (push_cells cells runs)
unfolding push_cells
push_cells-IsMerged [] runs m = m
push_cells-IsMerged (cell ∷ cells) runs m =
    push_cells-IsMerged cells (push_cell cell runs) (push_cell-IsMerged cell runs m)

IsMerged-tail : (run : Run) (runs : Row) → IsMerged (run ∷ runs) → IsMerged runs
IsMerged-tail run [] m = tt
IsMerged-tail run (next ∷ runs) m = m.1

pop_blank-IsMerged : (runs : Row) → IsMerged runs → IsMerged (pop_blank runs)
unfolding pop_blank
pop_blank-IsMerged [] m = tt
pop_blank-IsMerged (run ∷ runs) m =
    ground (arith, pop_blank-IsMerged runs (IsMerged-tail run runs m))

pop_blank-StartsVisible : (runs : Row) → StartsVisible (pop_blank runs)
unfolding pop_blank
pop_blank-StartsVisible [] = tt
pop_blank-StartsVisible (run ∷ runs) = ground (arith, pop_blank-StartsVisible runs)

trim_last-IsMerged : (runs : Row) → IsMerged runs → IsMerged (trim_last runs)
unfolding trim_last
trim_last-IsMerged [] m = tt
trim_last-IsMerged (run ∷ []) m = tt
trim_last-IsMerged (run ∷ next ∷ runs) m = ground arith

trim_last-StartsVisible : (runs : Row) → StartsVisible runs → StartsVisible (trim_last runs)
unfolding trim_last is_blank
trim_last-StartsVisible [] v = tt
trim_last-StartsVisible (run ∷ runs) v = ground (arith, trim_end_idem run.text)

module _ {Parser : Type 0} (vt : Vt100 Parser) where
  -- Read from its right end, a rendered row is in its canonical shape: neighbouring runs differ in
  -- style, and the last run of the row is not a run of plain blanks.
  pub render_row_canonical :
      (screen : Parser) (width row : ℕ)
      → IsMerged (reverse (render_row vt screen width row))
        × StartsVisible (reverse (render_row vt screen width row))
  unfolding render_row
  render_row_canonical screen width row =
      let runs = push_cells (map (vt.cell screen row) (range_from 0 width)) [] in
      let merged =
        pop_blank-IsMerged runs
          (push_cells-IsMerged (map (vt.cell screen row) (range_from 0 width)) [] tt) in
      rw (reverse-reverse (trim_last (pop_blank runs)))
        (trim_last-IsMerged _ merged, trim_last-StartsVisible _ (pop_blank-StartsVisible runs))
