-- ===== src/Moves/Recreation.antt =====
-- src/workspace_move.rs: how many panes a recreation starts.
use super_herdr.Common.{ℕ, zero, suc, ◌+◌, ◌≤◌, ◌≡◌, ◌⊎◌, refl, List, [], ◌∷◌, inl, inr, min, arith}
use super_herdr.Common.Tests.{ltb, Bool-cases, saturating_add, max_u64}
use super_herdr.Common.Lists.{length}
use super_herdr.Common.Order.{text}
use super_herdr.Common.Results.{ok, WhenOk, bind_rule, of_WhenOk}
use super_herdr.Moves.{
  Json, Recreated, recreated_pane, recreated_split, RecreatableTab, ExportedTab, NodeKind,
  pane_node, split_node, other_node, node_kind, node_direction, child, no_first, no_second,
  recreatable_layout, recreate_tabs, recreatable_layouts,
}

module _ {Number : Type 0} where
  abbrev pub panes_in : Recreated Number → ℕ
  panes_in (recreated_pane cwd label) = 1
  panes_in (recreated_split direction ratio first second) = panes_in first + panes_in second

  abbrev pub panes_of : List (RecreatableTab Number) → ℕ
  panes_of [] = 0
  panes_of (tab ∷ tabs) = panes_in tab.root + panes_of tabs

NodeKind-cases : (k : NodeKind) → (k ≡ pane_node) ⊎ ((k ≡ split_node) ⊎ (k ≡ other_node))
NodeKind-cases pane_node = inl refl
NodeKind-cases split_node = inr (inl refl)
NodeKind-cases other_node = inr (inr refl)

module _ {Value Number : Type 0} (json : Json Value Number) (half : Number) where
  abbrev Counted : Recreated Number × ℕ → Type 0
  Counted r = r.1 ≡ min (panes_in r.0) max_u64

  recreatable_layout-Counted :
      (levels : ℕ) (node : Value) → WhenOk Counted (recreatable_layout json half levels node)
  unfolding recreatable_layout
  recreatable_layout-Counted zero node = tt
  recreatable_layout-Counted (suc levels) node = elim (NodeKind-cases (node_kind json node)) [
    | inl k ↦ rw (recreatable_layout, k) (omega arith)
    | inr (inr k) ↦ rw (recreatable_layout, k) tt
    | inr (inl k) ↦
        rw (recreatable_layout, k)
          (bind_rule Counted (node_direction json node) _ (λ direction turn.
            bind_rule Counted (child json node (text "first") no_first) _ (λ first found.
              bind_rule Counted (child json node (text "second") no_second) _ (λ second also.
                bind_rule Counted (recreatable_layout json half levels first) _ (λ one e.
                  bind_rule Counted (recreatable_layout json half levels second) _ (λ two f. omega (
                    arith,
                    of_WhenOk Counted _ one (recreatable_layout-Counted levels first) e,
                    of_WhenOk Counted _ two (recreatable_layout-Counted levels second) f,
                  )))))))
  ]

  recreate_tabs-counts :
      (tabs : List (ExportedTab Value)) (panes : ℕ)
      → panes ≤ 64
      → WhenOk
          (λ (r : List (RecreatableTab Number) × ℕ).
            (r.1 ≡ panes + panes_of r.0) × ((r.1 ≤ 64) × (length r.0 ≡ length tabs)))
          (recreate_tabs json half panes tabs)
  unfolding recreate_tabs
  recreate_tabs-counts [] panes h = (omega arith, (h, refl))
  recreate_tabs-counts (tab ∷ tabs) panes h =
      let P = λ (r : List (RecreatableTab Number) × ℕ).
        (r.1 ≡ panes + panes_of r.0) × ((r.1 ≤ 64) × (length r.0 ≡ suc (length tabs))) in
      bind_rule P (recreatable_layout json half 65 tab.root) _ (λ one e.
        let here = of_WhenOk Counted _ one (recreatable_layout-Counted 65 tab.root) e in
        let counted = saturating_add panes one.1 in
        elim (Bool-cases (ltb 64 counted)) [
          | inl full ↦ rw full tt
          | inr room ↦ rw room (
              bind_rule P (recreate_tabs json half counted tabs) _ (λ others f.
                let fits : counted ≤ 64 = ground arith in
                let rest = of_WhenOk _ _ others (recreate_tabs-counts tabs counted fits) f in
                omega (arith, rest.0, rest.1.0, rest.1.1, here)))
        ])

  -- A recreation that is not refused starts as many panes as the layouts that it applies have, no more
  -- than 64, and applies one layout for each tab.
  pub recreatable_layouts_bounded :
      (exported : List (ExportedTab Value)) (tabs : List (RecreatableTab Number)) (panes : ℕ)
      → recreatable_layouts json half exported ≡ ok (tabs, panes)
      → (panes ≡ panes_of tabs) × ((panes ≤ 64) × (length tabs ≡ length exported))
  unfolding recreatable_layouts
  recreatable_layouts_bounded exported tabs panes e = omega (
    arith,
    of_WhenOk
        (λ (r : List (RecreatableTab Number) × ℕ).
          (r.1 ≡ 0 + panes_of r.0) × ((r.1 ≤ 64) × (length r.0 ≡ length exported)))
        (recreatable_layouts json half exported) (tabs, panes)
        (recreate_tabs-counts exported 0 (omega arith)) e,
  )
