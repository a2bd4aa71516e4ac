-- ===== src/Examples/Moved.antt =====
-- The theorems on workspace moves, on one tab of three panes.
use super_herdr.Common.{
  ◌⊎◌, ◌++◌, ◌&&◌, not, inl, inr, Bool, true, false, ℕ, ◌≤◌, ◌≡◌, refl, Option, none, some, [], ◌∷◌,
  arith, ℕ_discrete,
}
use super_herdr.Common.Tests.{if◌then◌else◌, Bool-cases}
use super_herdr.Common.Lists.{length}
use super_herdr.Common.Order.{Text, text, text_ord, list_same, lex_below}
use super_herdr.Common.Results.{Result, ok, err}
use super_herdr.Payloads.{right}
use super_herdr.Moves.{
  Json, is_text, node_kind, node_direction, TabMovePlan, plan_tab_move, ExportedTab, RecreatableTab,
  recreated_pane, recreated_split, recreatable_layout, recreatable_layouts,
}
use super_herdr.Common.Maps.{lookup, insert}
use super_herdr.Moves.{moved_pane, record_move, leftmost_pane, collect_splits}
use super_herdr.Moves.Carry.{
  Failure, fill_tab, place_splits, Request, move_to_tab, move_to_new_tab, Moved, move_tab,
  created_tab,
}
use super_herdr.Moves.Rebuilt.{Faithful, IsRebuilt, IsRefused, move_tab-renamed}
use super_herdr.Moves.Rebuild.{
  Layout, leaf, split, IsDistinct, Describes, describes_pane, describes_split, carry_out, holds,
  build, build-plan_tab_move,
}
use super_herdr.Moves.Recreation.{panes_of, recreatable_layouts_bounded}

-- Enough of JSON for an exported tree; its numbers are natural.
data Sample : Type 0 where
  word : Text → Sample
  pane : Text → Sample
  side_by_side : Sample → Sample → Sample
  reply moved : (id : Text) → Sample
  created : Sample

abbrev sample_get : Sample → Text → Option Sample
sample_get (word t) key = none
sample_get (pane id) key =
    if is_text key (text "type")
    then some (word (text "pane"))
    else if is_text key (text "pane_id")
    then some (word id)
    else none
sample_get (side_by_side one two) key =
    if is_text key (text "type")
    then some (word (text "split"))
    else if is_text key (text "direction")
    then some (word (text "right"))
    else if is_text key (text "first")
    then some one
    else if is_text key (text "second")
    then some two
    else none
sample_get (reply id) key = if is_text key (text "move_result") then some (moved id) else none
sample_get (moved id) key =
    if is_text key (text "pane")
    then some (pane id)
    else if is_text key (text "created_tab")
    then some created
    else none
sample_get created key = if is_text key (text "tab_id") then some (word (text "t9")) else none

abbrev sample_str : Sample → Option Text
sample_str (word t) = some t
sample_str other = none

abbrev sample : Json Sample ℕ
sample = record {
  get = sample_get;
  as_str = sample_str;
  as_f64 = λ value. none;
  as_array = λ value. none;
}

abbrev exported : Sample
exported = side_by_side (pane (text "p1")) (side_by_side (pane (text "p2")) (pane (text "p3")))

abbrev arranged : Layout ℕ
arranged =
    split right none (leaf (text "p1")) (split right none (leaf (text "p2")) (leaf (text "p3")))

exported-Describes : Describes sample 65 exported arranged
unfolding node_kind node_direction list_same ℕ_discrete
exported-Describes =
    describes_split right refl refl refl refl (describes_pane (text "p1") refl refl) (
      describes_split right refl refl refl refl (describes_pane (text "p2") refl refl)
        (describes_pane (text "p3") refl refl))

arranged-IsDistinct : IsDistinct arranged
arranged-IsDistinct = ((tt, ((tt, tt), λ p h. ground (arith, h))), λ p h. ground (arith, h))

build-plan_tab_move_example :
    (plan : TabMovePlan ℕ) × ((plan_tab_move sample exported ≡ ok plan) × (build plan ≡ arranged))
build-plan_tab_move_example =
    build-plan_tab_move sample exported arranged exported-Describes arranged-IsDistinct

abbrev tab_one : ExportedTab Sample
tab_one = record { label = some (text "build"); root = exported }

abbrev recreated : RecreatableTab ℕ
recreated = record {
  label = some (text "build");
  root =
      recreated_split right 5 (recreated_pane none none)
        (recreated_split right 5 (recreated_pane none none) (recreated_pane none none));
}

recreated_three : recreatable_layouts sample 5 (tab_one ∷ []) ≡ ok (recreated ∷ [], 3)
unfolding recreatable_layouts recreatable_layout list_same ℕ_discrete
recreated_three = refl

recreatable_layouts_bounded_example :
    (3 ≡ panes_of (recreated ∷ [])) × ((3 ≤ 64) × (length (recreated ∷ []) ≡ length (tab_one ∷ [])))
recreatable_layouts_bounded_example =
    recreatable_layouts_bounded sample 5 (tab_one ∷ []) (recreated ∷ []) 3 recreated_three

-- A Herdr of one tab, which gives each pane that comes a name made of those that stand there. It refuses
-- a target that does not stand there.
abbrev next_name : Layout ℕ → Text
next_name (leaf held) = 109 ∷ held
next_name (split direction ratio first second) = next_name first ++ next_name second

abbrev sample_ask : Layout ℕ → Request ℕ → Result Text Sample × Layout ℕ
sample_ask there (move_to_tab id tab direction target ratio) =
    if holds target there && not (holds (next_name there) there)
    then (
      ok (reply (next_name there)),
      carry_out
          (record {
            pane = next_name there;
            target_pane = target;
            direction = direction;
            ratio = ratio;
          })
          there,
    )
    else (err (text "no such pane"), there)
sample_ask there (move_to_new_tab id workspace label) = (ok (reply (text "m")), leaf (text "m"))
sample_ask there other = (err (text "unknown"), there)

abbrev one_tab : Layout ℕ → Text → Layout ℕ
one_tab there tab = there

sample-Faithful : Faithful sample sample_ask one_tab
unfolding moved_pane created_tab list_same ℕ_discrete
sample-Faithful = record {
  splits = λ s after id tab direction target ratio answer e h.
      elim (Bool-cases (holds (next_name s) s)) [
        | inl taken ↦ ground (arith, e)
        | inr fresh ↦ (next_name s, (ground (arith, e), (fresh, ground (arith, e))))
      ];
  opens = λ s after id workspace label answer e.
      (text "m", (text "t9", (ground (arith, e), (ground (arith, e), ground (arith, e)))));
}

abbrev none_moved : Moved
none_moved = ([], record { tabs = 0; panes = 0; source_closed = false })

move_tab-renamed_example :
    ((opened : Text) × IsRebuilt sample sample_ask one_tab opened arranged
        (move_tab sample sample_ask (text "w2") tab_one none_moved (leaf (text "x"))))
    ⊎ IsRefused sample sample_ask
        (move_tab sample sample_ask (text "w2") tab_one none_moved (leaf (text "x")))
move_tab-renamed_example =
    move_tab-renamed sample sample_ask one_tab sample-Faithful (text "w2") tab_one arranged
      none_moved (leaf (text "x")) exported-Describes arranged-IsDistinct

abbrev is_ok : Result Failure Moved → Bool
is_ok (err why) = false
is_ok (ok result) = true

-- That Herdr refuses nothing here.
all_moved :
    is_ok (move_tab sample sample_ask (text "w2") tab_one none_moved (leaf (text "x"))).0 ≡ true
unfolding move_tab fill_tab place_splits plan_tab_move leftmost_pane collect_splits record_move
    moved_pane created_tab lookup insert list_same lex_below ℕ_discrete
all_moved = refl
