-- ===== src/Examples/Screens.antt =====
-- The theorems on screens, on what the small emulator shows.
use super_herdr.Common.{ℕ, ◌<◌, ◌↔◌, ◌≡◌, ◌≢◌, refl, false, none, [], ◌∷◌, arith, ℕ_discrete}
use mathlib.Core.List.{reverse}
use super_herdr.Common.Lists.{length}
use super_herdr.Common.Order.{list_same}
use super_herdr.Screen.{Diff, apply, between, Row-discrete, Style-discrete, row_update}
use super_herdr.Screen.Diffs.{IsSnapshot, apply-between, apply_iff, Fits}
use super_herdr.Screen.Render.{snapshot_of, snapshot_of-IsSnapshot, render_row}
use super_herdr.Screen.Canonical.{IsMerged, StartsVisible, render_row_canonical}
use super_herdr.Broker.State.{ScreenState}
use super_herdr.Broker.Screens.{advance, settle}
use super_herdr.Broker.Flow.{settle_progress, Renders, advance-Renders}
use super_herdr.Examples.Runs.{Tape, tape}

abbrev before : Tape
before = (2, 3, 104 ∷ [])

abbrev after : Tape
after = (2, 3, 104 ∷ 105 ∷ [])

shot-IsSnapshot : (p : Tape) (sequence : ℕ) → IsSnapshot (snapshot_of tape p sequence)
shot-IsSnapshot p sequence = snapshot_of-IsSnapshot tape p sequence

abbrev step : Diff
unfolding row_update
step = record {
  follows = 6;
  sequence = 7;
  rows = row_update (snapshot_of tape after 7) 0 ∷ [];
  cursor = none;
}

apply-between_example : apply (snapshot_of tape before 6) step ≡ (snapshot_of tape after 7, none)
unfolding between snapshot_of Row-discrete list_same Style-discrete ℕ_discrete
apply-between_example =
    apply-between (snapshot_of tape before 6) (snapshot_of tape after 7) (shot-IsSnapshot before 6)
      (shot-IsSnapshot after 7) refl

apply_iff_example :
    (((apply (snapshot_of tape before 5) step).1 ≡ none)
      ↔ ((step.follows ≡ 5) × Fits (length (snapshot_of tape before 5).rows) step.rows))
    × (step.follows ≢ 5 → (apply (snapshot_of tape before 5) step).0 ≡ snapshot_of tape before 5)
unfolding snapshot_of
apply_iff_example = apply_iff (snapshot_of tape before 5) step

settle_progress_example : length (settle 5 (4 ∷ 5 ∷ 6 ∷ [])) < 3
settle_progress_example =
    settle_progress 5 (4 ∷ 5 ∷ 6 ∷ [])
      ((omega arith, (omega arith, tt)), ((omega arith, tt), (tt, tt))) refl

render_row_canonical_example :
    IsMerged (reverse (render_row tape after 3 0))
    × StartsVisible (reverse (render_row tape after 3 0))
render_row_canonical_example = render_row_canonical tape after 3 0

abbrev shown : ScreenState Tape
shown = record { parser = before; last = snapshot_of tape before 6 }

advance-Renders_example : Renders shown (advance tape 3 2 false (105 ∷ []) shown)
advance-Renders_example = advance-Renders tape 3 2 false (105 ∷ []) shown (shot-IsSnapshot before 6)
