-- ===== src/Moves/Carry.antt =====
-- src/workspace_move.rs: `export_workspace_tabs` and `move_workspace`, over a Herdr session. What
-- answers is not part of the repository: `ask` takes its state and a request to the answer, or the
-- message of an error, and its state afterwards. Opening the session is left out.
use super_herdr.Common.{false, Option, none, some, List, [], ◌∷◌}
use super_herdr.Common.Tests.{if◌then◌else◌, saturating_add}
use super_herdr.Common.Order.{Text, text, text_ord}
use super_herdr.Common.Results.{Result, ok, err}
use super_herdr.Common.Maps.{Map, lookup}
use super_herdr.Payloads.{SplitDirection}
use super_herdr.Moves.{
  Json, Refusal, SplitMove, TabMovePlan, WorkspaceMoveSummary, ExportedTab, is_text, and_then,
  filter_nonempty, text_at, plan_tab_move, record_move,
}

-- The requests, with their parameters.
pub data Request (Number : Type 0) : Type 0 where
  tab_list : (workspace : Text) → Request Number
  layout_export : (tab : Text) → Request Number
  move_to_new_tab : (pane workspace : Text) → (label : Option Text) → Request Number
  move_to_tab :
      (pane tab : Text)
      → SplitDirection
      → (target_pane : Text) → (ratio : Option Number) → Request Number

pub data Failure : Type 0 where
  api_error : (message : Text) → Failure
  unplanned : Refusal → Failure
  into_itself no_tabs unnamed_tab no_layout no_created_tab : Failure

-- What is known of the panes moved so far.
abbrev pub Moved : Type 0
Moved = Map Text Text × WorkspaceMoveSummary

module _ {Value Number : Type 0} (json : Json Value Number) where
  -- The tab that a move opened.
  unfoldable pub created_tab : Value → Option Text
  created_tab opened =
      and_then
        (and_then
          (and_then (json.get opened (text "move_result")) (λ r. json.get r (text "created_tab")))
          (λ t. json.get t (text "tab_id")))
        json.as_str

module _ {Value Number S : Type 0} (json : Json Value Number)
    (ask : S → Request Number → Result Text Value × S) where
  -- An answer, and what follows it.
  abbrev pub answered :
      {B : Type 0}
      → Result Text Value × S
      → (Value → S → Result Failure B × S)
      → Result Failure B × S
  answered (err message, after) next = (err (api_error message), after)
  answered (ok value, after) next = next value after

  abbrev pub request :
      {B : Type 0} → Request Number → S → (Value → S → Result Failure B × S) → Result Failure B × S
  request what session next = answered (ask session what) next

  -- `as_array`, of the tabs that are listed.
  unfoldable pub export_tabs : List Value → S → Result Failure (List (ExportedTab Value)) × S
  export_tabs [] session = (ok [], session)
  export_tabs (tab ∷ tabs) session =
      let rest = λ (s : S). export_tabs tabs s in
      elim (text_at json tab (text "tab_id")) [
        | none ↦ (err unnamed_tab, session)
        | some id ↦ request (layout_export id) session (λ answer after.
            elim (and_then (json.get answer (text "layout")) (λ l. json.get l (text "root"))) [
              | none ↦ (err no_layout, after)
              | some root ↦
                  let (others, last) = rest after in
                  elim others [
                    | err why ↦ (err why, last)
                    | ok exported ↦ (
                      ok (
                          record {
                            label = filter_nonempty (text_at json tab (text "label"));
                            root = root;
                          }
                          ∷ exported),
                      last,
                    )
                  ]
            ])
      ]

  -- The loop over the splits of a plan.
  unfoldable pub place_splits :
      Text → List (SplitMove Number) → Moved → S → Result Failure Moved × S
  place_splits tab [] moved session = (ok moved, session)
  place_splits tab (split ∷ splits) moved session =
      let target_pane : Text = elim (lookup split.target_pane moved.0) [
        | none ↦ split.target_pane
        | some id ↦ id
      ] in
      let rest = λ (m : Moved) (s : S). place_splits tab splits m s in
      request (move_to_tab split.pane tab split.direction target_pane split.ratio) session
        (λ answer after. rest (record_move json split.pane answer moved) after)

  -- What is done once the tab is opened for the anchor of the plan.
  unfoldable pub fill_tab : TabMovePlan Number → Moved → Value → S → Result Failure Moved × S
  unfolding created_tab place_splits
  fill_tab plan moved opened session =
      let (moved_ids, summary) = record_move json plan.anchor_pane opened moved in
      elim (created_tab json opened) [
        | none ↦ (err no_created_tab, session)
        | some created ↦
            place_splits created plan.splits
              (moved_ids, record summary { tabs = saturating_add summary.tabs 1 }) session
      ]

  -- The body of the loop over the tabs: one tab by its plan.
  unfoldable pub move_tab : Text → ExportedTab Value → Moved → S → Result Failure Moved × S
  unfolding fill_tab
  move_tab workspace tab moved session = elim (plan_tab_move json tab.root) [
    | err why ↦ (err (unplanned why), session)
    | ok plan ↦
        request (move_to_new_tab plan.anchor_pane workspace tab.label) session (fill_tab plan moved)
  ]

  unfoldable pub move_tabs : Text → List (ExportedTab Value) → Moved → S → Result Failure Moved × S
  unfolding move_tab
  move_tabs workspace [] moved session = (ok moved, session)
  move_tabs workspace (tab ∷ tabs) moved session =
      let rest = λ (m : Moved) (s : S). move_tabs workspace tabs m s in
      let (result, after) = move_tab workspace tab moved session in
      elim result [ err why ↦ (err why, after) | ok now ↦ rest now after ]

  unfoldable pub export_workspace_tabs : Text → S → Result Failure (List (ExportedTab Value)) × S
  unfolding export_tabs
  export_workspace_tabs workspace session = request (tab_list workspace) session (λ listed after.
      elim (and_then (json.get listed (text "tabs")) json.as_array) [
        | none ↦ (err no_tabs, after)
        | some [] ↦ (err no_tabs, after)
        | some (tab ∷ tabs) ↦ export_tabs (tab ∷ tabs) after
      ])

  unfoldable pub move_workspace : Text → Text → S → Result Failure WorkspaceMoveSummary × S
  unfolding export_workspace_tabs move_tabs
  move_workspace source destination session =
      if is_text source destination
      then (err into_itself, session)
      else (let (exported, after) = export_workspace_tabs source session in
          elim exported [
            | err why ↦ (err why, after)
            | ok tabs ↦
                let (result, last) =
                  move_tabs destination tabs
                    ([], record { tabs = 0; panes = 0; source_closed = false }) after in
                elim result [ err why ↦ (err why, last) | ok moved ↦ (ok moved.1, last) ]
          ])
