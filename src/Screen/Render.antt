-- ===== src/Screen/Render.antt =====
-- src/screen.rs: `Snapshot::of` and `render_row`, over the `vt100` emulator.
use super_herdr.Common.{
  ℕ, zero, suc, ◌<◌, ◌≡◌, refl, Bool, true, false, ◌&&◌, Option, none, some, List, [], ◌∷◌, ◌++◌,
  ite, map, arith,
}
use mathlib.Core.List.{reverse}
use super_herdr.Common.Tests.{if◌then◌else◌}
use super_herdr.Common.Lists.{length}
use super_herdr.Common.Order.{Text, text}
use super_herdr.Common.Texts.{trim_end}
use super_herdr.Screen.{
  Color, default, Color-discrete, Style, Style-discrete, Run, Row, Cursor, Snapshot, range_from,
}
use super_herdr.Screen.Diffs.{IsSnapshot}

-- What the code reads of one cell of the emulator. The colours are those that `From<vt100::Color>`
-- gives.
pub record Cell : Type 0 where
  pub is_wide_continuation : Bool
  pub fgcolor : Color
  pub bgcolor : Color
  pub bold : Bool
  pub dim : Bool
  pub italic : Bool
  pub underline : Bool
  pub inverse : Bool
  pub has_contents : Bool
  pub contents : Text

-- The emulator, `vt100::Parser` and its `Screen`, which is not part of the repository. Sizes are
-- rows, then columns, and are `u16`.
pub record Vt100 (Parser : Type 0) : Type 0 where
  pub new : ℕ → ℕ → Parser
  pub process : Parser → List ℕ → Parser
  pub size : Parser → ℕ × ℕ
  pub hide_cursor : Parser → Bool
  pub cursor_position : Parser → ℕ × ℕ
  pub cell : Parser → ℕ → ℕ → Option Cell
  pub size-lt : (p : Parser) → ((size p).0 < 65536) × ((size p).1 < 65536)

unfoldable pub specified : Color → Option Color
specified default = none
specified other = some other

abbrev pub plain : Style
plain = record {
  foreground = none;
  background = none;
  bold = false;
  dim = false;
  italic = false;
  underline = false;
  inverse = false;
}

-- Whether a cell asks for inverse video that swapping its two colours cannot express.
unfoldable pub unresolvable : Cell → Bool
unresolvable cell =
    cell.inverse
    && ite (Color-discrete cell.fgcolor default)
        (ite (Color-discrete cell.bgcolor default) true false) false

unfoldable pub cell_style : Cell → Style
unfolding unresolvable specified
cell_style cell = record {
  foreground = specified (if cell.inverse then cell.bgcolor else cell.fgcolor);
  background = specified (if cell.inverse then cell.fgcolor else cell.bgcolor);
  bold = cell.bold;
  dim = cell.dim;
  italic = cell.italic;
  underline = cell.underline;
  inverse = unresolvable cell;
}

unfoldable pub cell_text : Cell → Text
cell_text cell = if cell.has_contents then cell.contents else text " "

-- One round of the loop over the columns. The runs so far are held last run first.
unfoldable pub push_text : Text → Style → Row → Row
push_text t style [] = record { text = t; style = style } ∷ []
push_text t style (run ∷ runs) =
    ite (Style-discrete run.style style) (record run { text = run.text ++ t } ∷ runs)
      (record { text = t; style = style } ∷ run ∷ runs)

unfoldable pub push_cell : Option Cell → Row → Row
unfolding push_text cell_style cell_text
push_cell none runs = runs
push_cell (some cell) runs =
    if cell.is_wide_continuation then runs else push_text (cell_text cell) (cell_style cell) runs

unfoldable pub push_cells : List (Option Cell) → Row → Row
unfolding push_cell
push_cells [] runs = runs
push_cells (cell ∷ cells) runs = push_cells cells (push_cell cell runs)

abbrev pub is_plain : Style → Bool
is_plain style = ite (Style-discrete style plain) true false

abbrev pub is_empty {ℓ} : {A : Type ℓ} → List A → Bool
is_empty [] = true
is_empty (x ∷ xs) = false

-- A run that the last loop of `render_row` removes.
unfoldable pub is_blank : Run → Bool
unfolding trim_end
is_blank run = is_plain run.style && is_empty (trim_end run.text)

unfoldable pub pop_blank : Row → Row
unfolding is_blank
pop_blank [] = []
pop_blank (run ∷ runs) = let rest = pop_blank runs in if is_blank run then rest else run ∷ runs

unfoldable pub trim_last : Row → Row
unfolding trim_end
trim_last [] = []
trim_last (run ∷ runs) =
    (if is_plain run.style then record run { text = trim_end run.text } else run) ∷ runs

module _ {Parser : Type 0} (vt : Vt100 Parser) where
  unfoldable pub render_row : Parser → ℕ → ℕ → Row
  unfolding push_cells pop_blank trim_last
  render_row screen width row =
      let cells = map (vt.cell screen row) (range_from 0 width) in
      reverse (trim_last (pop_blank (push_cells cells [])))

  cursor_of : Parser → Option Cursor
  cursor_of screen =
      let (row, column) = vt.cursor_position screen in
      if vt.hide_cursor screen then none else some (record { row = row; column = column })

  -- `Snapshot::of`.
  unfoldable pub snapshot_of : Parser → ℕ → Snapshot
  unfolding render_row cursor_of
  snapshot_of screen sequence = record {
    sequence = sequence;
    width = (vt.size screen).1;
    height = (vt.size screen).0;
    rows = map (render_row screen (vt.size screen).1) (range_from 0 (vt.size screen).0);
    cursor = cursor_of screen;
  }

  length-map_range : (f : ℕ → Row) (i n : ℕ) → length (map f (range_from i n)) ≡ n
  length-map_range f i zero = refl
  length-map_range f i (suc n) = omega (arith, length-map_range f (suc i) n)

  -- A rendered screen has as many rows as it says, and a height that is a `u16`.
  pub snapshot_of-IsSnapshot :
      (screen : Parser) (sequence : ℕ) → IsSnapshot (snapshot_of screen sequence)
  unfolding snapshot_of
  snapshot_of-IsSnapshot screen sequence = record {
    filled = length-map_range _ 0 (vt.size screen).0;
    narrow = (vt.size-lt screen).0;
  }
