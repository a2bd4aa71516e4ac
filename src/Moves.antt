-- ===== src/Moves.antt =====
-- src/workspace_move.rs: the plan of a move, and what a workspace is recreated from. The requests of a
-- recreation are left out.
pub mod Rebuild
pub mod Recreation
pub mod Carry
pub mod Rebuilt
use super_herdr.Common.{
  ℕ, zero, suc, ◌+◌, Bool, true, false, not, Option, none, some, List, [], ◌∷◌, ◌++◌, ite, min,
}
use super_herdr.Common.Tests.{ltb, leb, ◌==◌, if◌then◌else◌, is_some, max_u64, saturating_add}
use super_herdr.Common.Lists.{length}
use super_herdr.Common.Order.{Text, text, text_ord}
use super_herdr.Common.Results.{Result, ok, err, bind, ok_or}
use super_herdr.Common.Maps.{Map, lookup, insert}
use super_herdr.Payloads.{SplitDirection, right, down}

-- What the code reads of `serde_json::Value`, which is not part of the repository. Its numbers are of
-- a type of their own.
pub record Json (Value Number : Type 0) : Type 0 where
  pub get : Value → Text → Option Value
  pub as_str : Value → Option Text
  pub as_f64 : Value → Option Number
  pub as_array : Value → Option (List Value)

abbrev pub max_layout_depth : ℕ
max_layout_depth = 64

abbrev pub max_recreated_panes : ℕ
max_recreated_panes = 64

pub data Refusal : Type 0 where
  too_deep no_identifier no_first no_second bad_direction unsupported_node too_many_panes : Refusal

pub record SplitMove (Number : Type 0) : Type 0 where
  pub pane : Text
  pub target_pane : Text
  pub direction : SplitDirection
  pub ratio : Option Number

pub record TabMovePlan (Number : Type 0) : Type 0 where
  pub anchor_pane : Text
  pub splits : List (SplitMove Number)

pub record WorkspaceMoveSummary : Type 0 where
  pub tabs : ℕ
  pub panes : ℕ
  pub source_closed : Bool

abbrev pub is_text : Text → Text → Bool
is_text a b = ite (text_ord.same a b) true false

-- `SplitDirection::from_api_value`.
unfoldable pub from_api_value : Text → Option SplitDirection
from_api_value value =
    if is_text value (text "right")
    then some right
    else if is_text value (text "down")
    then some down
    else none

abbrev pub and_then : {A B : Type 0} → Option A → (A → Option B) → Option B
and_then none f = none
and_then (some a) f = f a

-- What of one node of an exported tree is recreated: of a pane its directory and its label.
pub data Recreated (Number : Type 0) : Type 0 where
  recreated_pane : (cwd label : Option Text) → Recreated Number
  recreated_split :
      SplitDirection → (ratio : Number) → (first second : Recreated Number) → Recreated Number

pub record RecreatableTab (Number : Type 0) : Type 0 where
  pub label : Option Text
  pub root : Recreated Number

pub record ExportedTab (Value : Type 0) : Type 0 where
  pub label : Option Text
  pub root : Value

-- The kinds of a node.
pub data NodeKind : Type 0 where
  pane_node split_node other_node : NodeKind

abbrev pub filter_nonempty : Option Text → Option Text
filter_nonempty none = none
filter_nonempty (some []) = none
filter_nonempty (some (c ∷ cs)) = some (c ∷ cs)

module _ {Value Number : Type 0} (json : Json Value Number) where
  abbrev pub text_at : Value → Text → Option Text
  text_at node key = and_then (json.get node key) json.as_str

  -- The `match` on the type of a node.
  unfoldable pub node_kind : Value → NodeKind
  node_kind node = elim (text_at node (text "type")) [
    | none ↦ other_node
    | some kind ↦
        if is_text kind (text "pane")
        then pane_node
        else if is_text kind (text "split")
        then split_node
        else other_node
  ]

  unfoldable pub node_direction : Value → Result Refusal SplitDirection
  unfolding from_api_value
  node_direction node =
      ok_or (and_then (text_at node (text "direction")) from_api_value) bad_direction

  abbrev pub child : Value → Text → Refusal → Result Refusal Value
  child node key refusal = ok_or (json.get node key) refusal

  abbrev pub ratio_of : Value → Option Number
  ratio_of node = and_then (json.get node (text "ratio")) json.as_f64

  -- The levels that are left are counted down: at a depth of 65 none is.
  unfoldable pub leftmost_pane : ℕ → Value → Result Refusal Text
  unfolding node_kind
  leftmost_pane zero node = err too_deep
  leftmost_pane (suc levels) node =
      let below : Result Refusal Text =
        bind (child node (text "first") no_first) (λ first. leftmost_pane levels first) in
      elim (node_kind node) [
        | pane_node ↦ ok_or (text_at node (text "pane_id")) no_identifier
        | split_node ↦ below
        | other_node ↦ err unsupported_node
      ]

  -- The splits that are pushed, in their order.
  unfoldable pub collect_splits : ℕ → Value → Result Refusal (List (SplitMove Number))
  unfolding node_kind node_direction leftmost_pane
  collect_splits zero node = err too_deep
  collect_splits (suc levels) node =
      let below : Result Refusal (List (SplitMove Number)) =
        bind (child node (text "first") no_first) (λ first.
          bind (child node (text "second") no_second) (λ second.
            bind (node_direction node) (λ direction. bind (leftmost_pane levels second) (λ pane.
              bind (leftmost_pane levels first) (λ target_pane.
                let here : SplitMove Number = record {
                  pane = pane;
                  target_pane = target_pane;
                  direction = direction;
                  ratio = ratio_of node;
                } in
                bind (collect_splits levels first) (λ firsts.
                  bind (collect_splits levels second)
                    (λ seconds. ok (here ∷ (firsts ++ seconds))))))))) in
      elim (node_kind node) [
        | pane_node ↦ ok []
        | split_node ↦ below
        | other_node ↦ err unsupported_node
      ]

  unfoldable pub plan_tab_move : Value → Result Refusal (TabMovePlan Number)
  plan_tab_move root = bind (leftmost_pane (suc max_layout_depth) root) (λ anchor.
      bind (collect_splits (suc max_layout_depth) root)
        (λ splits. ok (record { anchor_pane = anchor; splits = splits })))

  -- `recreatable_layout`; `half` is the ratio of a split that has none.
  unfoldable pub recreatable_layout : Number → ℕ → Value → Result Refusal (Recreated Number × ℕ)
  unfolding node_kind node_direction
  recreatable_layout half zero node = err too_deep
  recreatable_layout half (suc levels) node =
      let below : Result Refusal (Recreated Number × ℕ) = bind (node_direction node) (λ direction.
        bind (child node (text "first") no_first) (λ first.
          bind (child node (text "second") no_second) (λ second.
            bind (recreatable_layout half levels first) (λ one.
              bind (recreatable_layout half levels second) (λ two. ok (
                recreated_split direction
                    (elim (ratio_of node) [ none ↦ half | some ratio ↦ ratio ]) one.0 two.0,
                saturating_add one.1 two.1,
              )))))) in
      elim (node_kind node) [
        | pane_node ↦ ok (
          recreated_pane (filter_nonempty (text_at node (text "cwd")))
              (filter_nonempty (text_at node (text "label"))),
          1,
        )
        | split_node ↦ below
        | other_node ↦ err unsupported_node
      ]

  -- The loop of `recreatable_layouts`, from the panes counted so far.
  unfoldable pub recreate_tabs :
      Number → ℕ → List (ExportedTab Value) → Result Refusal (List (RecreatableTab Number) × ℕ)
  recreate_tabs half panes [] = ok ([], panes)
  recreate_tabs half panes (tab ∷ tabs) =
      bind (recreatable_layout half (suc max_layout_depth) tab.root) (λ one.
        let counted = saturating_add panes one.1 in
        let rest = recreate_tabs half counted tabs in
        if ltb max_recreated_panes counted
        then err too_many_panes
        else (bind rest
            (λ others. ok (record { label = tab.label; root = one.0 } ∷ others.0, others.1))))

  unfoldable pub recreatable_layouts :
      Number → List (ExportedTab Value) → Result Refusal (List (RecreatableTab Number) × ℕ)
  unfolding recreate_tabs
  recreatable_layouts half exported = recreate_tabs half 0 exported

  -- The identifier that a pane has once it is moved.
  unfoldable pub moved_pane : Value → Option Text
  moved_pane response =
      and_then
        (and_then
          (and_then (json.get response (text "move_result")) (λ r. json.get r (text "pane")))
          (λ p. json.get p (text "pane_id")))
        json.as_str

  -- `record_move`: also whether the answer names a workspace that was closed.
  unfoldable pub record_move :
      Text → Value → Map Text Text × WorkspaceMoveSummary → Map Text Text × WorkspaceMoveSummary
  record_move source_pane response (moved_ids, summary) =
      let closed =
        and_then
          (and_then (json.get response (text "move_result"))
            (λ r. json.get r (text "closed_workspace_id")))
          json.as_str in
      (
        elim (moved_pane response) [ none ↦ moved_ids | some id ↦ insert source_pane id moved_ids ],
        record summary {
          source_closed = if is_some closed then true else summary.source_closed;
          panes = saturating_add summary.panes 1;
        },
      )
