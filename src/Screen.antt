-- ===== src/Screen.antt =====
-- src/screen.rs: a rendered terminal screen, the difference of two screens, and the client's
-- application of such a difference. The `vt100` emulator is a parameter: the record `Vt100` holds
-- the calls that the code makes of it, with its documented behaviour on sizes.
pub mod Diffs
pub mod Render
pub mod Canonical
use super_herdr.Common.{
  ℕ, zero, suc, ◌%◌, Bool, true, false, not, ◌||◌, Option, none, some, List, [], ◌∷◌, ite, map,
  ℕ_discrete,
}
use super_herdr.Common.Tests.{◌==◌, if◌then◌else◌}
use super_herdr.Common.Lists.{get_elem?, set}
use super_herdr.Common.Order.{Text, text_ord, list_same}

pub data Color : Type 0 where
  default : Color
  indexed : ℕ → Color
  rgb : ℕ → ℕ → ℕ → Color

pub record Style : Type 0 where
  pub foreground : Option Color
  pub background : Option Color
  pub bold : Bool
  pub dim : Bool
  pub italic : Bool
  pub underline : Bool
  pub inverse : Bool

unfoldable pub Color-discrete : Discrete Color
Color-discrete = hlevel ℕ_discrete

unfoldable pub Style-discrete : Discrete Style
Style-discrete = hlevel Color-discrete

pub record Run : Type 0 where
  pub text : Text
  pub style : Style

abbrev pub Row : Type 0
Row = List Run

unfoldable pub Run-discrete : Discrete Run
Run-discrete = hlevel (text_ord.same, Style-discrete)

unfoldable pub Row-discrete : Discrete Row
unfolding Run-discrete
Row-discrete = list_same Run-discrete

pub record Cursor : Type 0 where
  pub row : ℕ
  pub column : ℕ

unfoldable pub Cursor-discrete : Discrete (Option Cursor)
Cursor-discrete = hlevel ℕ_discrete

pub record Snapshot : Type 0 where
  pub sequence : ℕ
  pub width : ℕ
  pub height : ℕ
  pub rows : List Row
  pub cursor : Option Cursor

pub record RowUpdate : Type 0 where
  pub row : ℕ
  pub runs : Row

pub record Diff : Type 0 where
  pub follows : ℕ
  pub sequence : ℕ
  pub rows : List RowUpdate
  pub cursor : Option Cursor

pub record StaleScreen : Type 0 where
  pub held : ℕ
  pub expected : ℕ

-- The loop of `Snapshot::apply`: the rows as far as they were written, and whether every named
-- row exists.
unfoldable pub write_rows : List Row → List RowUpdate → List Row × Bool
write_rows rows [] = (rows, true)
write_rows rows (update ∷ updates) =
    let rest = write_rows (set rows update.row update.runs) updates in
    elim (get_elem? rows update.row) [ none ↦ (rows, false) | some row ↦ rest ]

-- `Snapshot::apply`: the screen afterwards, and the error if it refused.
unfoldable pub apply : Snapshot → Diff → Snapshot × Option StaleScreen
unfolding write_rows
apply s diff =
    let refusal : StaleScreen = record { held = s.sequence; expected = diff.follows } in
    let (rows, all_written) = write_rows s.rows diff.rows in
    if diff.follows == s.sequence
    then (if all_written
        then (record s { rows = rows; cursor = diff.cursor; sequence = diff.sequence }, none)
        else (record s { rows = rows }, some refusal))
    else (s, some refusal)

-- `0..height`, from `i` upwards.
abbrev pub range_from : ℕ → ℕ → List ℕ
range_from i zero = []
range_from i (suc n) = i ∷ range_from (suc i) n

-- The zipped comparison of `changed_rows`; `index as u16` wraps.
unfoldable pub differing : ℕ → List Row → List Row → List ℕ
differing i [] later = []
differing i (row ∷ rows) [] = []
differing i (row ∷ rows) (earlier ∷ olds) =
    let rest = differing (suc i) rows olds in
    ite (Row-discrete row earlier) rest ((i % 65536) ∷ rest)

unfoldable pub changed_rows : Snapshot → Snapshot → List ℕ
unfolding differing
changed_rows s previous =
    if not (s.width == previous.width) || not (s.height == previous.height)
    then range_from 0 s.height
    else differing 0 s.rows previous.rows

-- A row that is missing panics in the source; `between` names only rows of `current`.
abbrev pub row_or_empty : List Row → ℕ → Row
row_or_empty rows i = elim (get_elem? rows i) [ none ↦ [] | some row ↦ row ]

unfoldable pub row_update : Snapshot → ℕ → RowUpdate
row_update current row = record { row = row; runs = row_or_empty current.rows row }

unfoldable pub between : Snapshot → Snapshot → Option Diff
unfolding changed_rows row_update
between previous current =
    if not (previous.width == current.width) || not (previous.height == current.height)
    then none
    else some (record {
      follows = previous.sequence;
      sequence = current.sequence;
      rows = map (row_update current) (changed_rows current previous);
      cursor = current.cursor;
    })
