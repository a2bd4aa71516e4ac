-- ===== src/Moves/Rebuild.antt =====
-- src/workspace_move.rs: that a plan rebuilds the tree it was made from.
use super_herdr.Common.{
  ℕ, suc, ◌≡◌, ◌≢◌, refl, sym, ap, ◌∙◌, Bool, true, false, ◌||◌, Option, some, List, [], ◌∷◌, ◌++◌,
  ite, inl, inr, arith,
}
use super_herdr.Common.Tests.{Bool-cases}
use super_herdr.Common.Order.{Text, text, text_ord}
use super_herdr.Common.Results.{ok}
use super_herdr.Payloads.{SplitDirection}
use super_herdr.Moves.{
  Json, SplitMove, TabMovePlan, is_text, node_kind, node_direction, pane_node, split_node, text_at,
  ratio_of, leftmost_pane, collect_splits, plan_tab_move,
}

-- The arrangement of a tab: a pane, or a split into two.
pub data Layout (Number : Type 0) : Type 0 where
  leaf : (pane : Text) → Layout Number
  split : SplitDirection → (ratio : Option Number) → (first second : Layout Number) → Layout Number

module _ {Number : Type 0} where
  -- Where a pane stands, another layout is put.
  abbrev pub replace : Text → Layout Number → Layout Number → Layout Number
  replace pane other (leaf held) = ite (text_ord.same held pane) other (leaf held)
  replace pane other (split direction ratio first second) =
      split direction ratio (replace pane other first) (replace pane other second)

  -- What Herdr does with one split: the target shares its place with the pane.
  abbrev pub carry_out : SplitMove Number → Layout Number → Layout Number
  carry_out move layout =
      replace move.target_pane
        (split move.direction move.ratio (leaf move.target_pane) (leaf move.pane)) layout

  abbrev pub carry_out_all : List (SplitMove Number) → Layout Number → Layout Number
  carry_out_all [] layout = layout
  carry_out_all (move ∷ moves) layout = carry_out_all moves (carry_out move layout)

  -- The tab that a plan builds.
  abbrev pub build : TabMovePlan Number → Layout Number
  build plan = carry_out_all plan.splits (leaf plan.anchor_pane)

  abbrev pub holds : Text → Layout Number → Bool
  holds pane (leaf held) = is_text held pane
  holds pane (split direction ratio first second) = holds pane first || holds pane second

  -- No pane stands in it twice.
  abbrev pub IsDistinct : Layout Number → Type 0
  IsDistinct (leaf pane) = Unit
  IsDistinct (split direction ratio first second) =
      (IsDistinct first × IsDistinct second)
      × ((pane : Text) → holds pane first ≡ true → holds pane second ≡ false)

  abbrev pub leftmost : Layout Number → Text
  leftmost (leaf pane) = pane
  leftmost (split direction ratio first second) = leftmost first

  abbrev pub moves : Layout Number → List (SplitMove Number)
  moves (leaf pane) = []
  moves (split direction ratio first second) =
      record {
        pane = leftmost second;
        target_pane = leftmost first;
        direction = direction;
        ratio = ratio;
      }
      ∷ (moves first ++ moves second)

  pub carry_out_all-append :
      (a b : List (SplitMove Number)) (layout : Layout Number)
      → carry_out_all (a ++ b) layout ≡ carry_out_all b (carry_out_all a layout)
  carry_out_all-append [] b layout = refl
  carry_out_all-append (move ∷ a) b layout = carry_out_all-append a b (carry_out move layout)

  replace_leaf : (pane : Text) (layout : Layout Number) → replace pane (leaf pane) layout ≡ layout
  replace_leaf pane (leaf held) = ground arith
  replace_leaf pane (split direction ratio first second) =
      ground (arith, replace_leaf pane first, replace_leaf pane second)

  replace_missing :
      (pane : Text) (other layout : Layout Number)
      → holds pane layout ≡ false
      → replace pane other layout ≡ layout
  replace_missing pane other (leaf held) h = ground arith
  replace_missing pane other (split direction ratio first second) h =
      ground (arith, replace_missing pane other first, replace_missing pane other second)

  -- A replacement inside what replaced another pane, which stands nowhere else.
  replace-replace :
      (pane inner : Text) (other there layout : Layout Number)
      → holds inner layout ≡ false
      → replace inner other (replace pane there layout)
        ≡ replace pane (replace inner other there) layout
  replace-replace pane inner other there (leaf held) h = ground arith
  replace-replace pane inner other there (split direction ratio first second) h = ground (
    arith,
    replace-replace pane inner other there first,
    replace-replace pane inner other there second,
  )

  -- A replacement of the pane where it was replaced.
  replace_again :
      (pane : Text) (other there layout : Layout Number)
      → replace pane other (replace pane there layout)
        ≡ replace pane (replace pane other there) layout
  replace_again pane other there (leaf held) = ground arith
  replace_again pane other there (split direction ratio first second) =
      ground (arith, replace_again pane other there first, replace_again pane other there second)

  holds-replace :
      (q pane : Text) (other layout : Layout Number)
      → holds q layout ≡ false
      → holds q other ≡ false
      → holds q (replace pane other layout) ≡ false
  holds-replace q pane other (leaf held) h k = ground arith
  holds-replace q pane other (split direction ratio first second) h k =
      ground (arith, holds-replace q pane other first, holds-replace q pane other second)

  pub holds-leftmost : (layout : Layout Number) → holds (leftmost layout) layout ≡ true
  holds-leftmost (leaf pane) = ground arith
  holds-leftmost (split direction ratio first second) = ground (arith, holds-leftmost first)

  -- What stands in one half does not stand in the other.
  apart :
      (direction : SplitDirection) (ratio : Option Number) (first second : Layout Number) (p : Text)
      → IsDistinct (split direction ratio first second)
      → holds p second ≡ true
      → holds p first ≡ false
  apart direction ratio first second p d h = elim (Bool-cases (holds p first)) [
    | inl e ↦ ground (arith, d.1 p e)
    | inr e ↦ e
  ]

  -- Where one half of a split stands, the rest of it stands nowhere yet.
  pub record Halves (direction : SplitDirection) (ratio : Option Number)
      (first second there : Layout Number) : Type 0 where
    pub missing : holds (leftmost second) first ≡ false
    pub away : holds (leftmost second) there ≡ false
    pub clear_first :
        (p : Text)
        → holds p first ≡ true
        → p ≢ leftmost first
        → holds p (
            replace
              (leftmost first)
              (split direction ratio (leaf (leftmost first)) (leaf (leftmost second)))
              there)
          ≡ false
    pub clear_second :
        (p : Text)
        → holds p second ≡ true
        → p ≢ leftmost second
        → holds p
            (replace (leftmost first) (split direction ratio first (leaf (leftmost second))) there)
          ≡ false

  pub halves :
      (direction : SplitDirection) (ratio : Option Number) (first second there : Layout Number)
      → IsDistinct (split direction ratio first second)
      → ((p : Text)
          → holds p (split direction ratio first second) ≡ true
          → p ≢ leftmost first
          → holds p there ≡ false)
      → Halves direction ratio first second there
  halves direction ratio first second there d a =
      let lf = leftmost first in
      let ls = leftmost second in
      let missing : holds ls first ≡ false =
        apart direction ratio first second ls d (holds-leftmost second) in
      let other : ls ≢ lf =
        λ e. ground (arith, missing, holds-leftmost first, ap (λ p. holds p first) e) in
      record {
        missing = missing;
        away = a ls (ground (arith, holds-leftmost second)) other;
        clear_first = λ p h n.
            holds-replace p lf (split direction ratio (leaf lf) (leaf ls)) there
              (a p (ground arith) n)
              (ground
                (arith, d.1 p h, holds-leftmost second, ap (λ q. holds q second) {x = ls} {y = p}));
        clear_second = λ p h n.
            let clear : holds p first ≡ false = apart direction ratio first second p d h in
            let not_lf : p ≢ lf =
              λ e. ground (arith, clear, holds-leftmost first, ap (λ q. holds q first) e) in
            holds-replace p lf (split direction ratio first (leaf ls)) there
              (a p (ground arith) not_lf) (ground arith);
      }

  -- The moves of the first half put it beside the leftmost pane of the second.
  pub first_half :
      (direction : SplitDirection) (ratio : Option Number) (first second there : Layout Number)
      → carry_out_all (moves first) (
          replace
            (leftmost first)
            (split direction ratio (leaf (leftmost first)) (leaf (leftmost second)))
            there)
        ≡ replace (leftmost first) first (
            replace
              (leftmost first)
              (split direction ratio (leaf (leftmost first)) (leaf (leftmost second)))
              there)
      → leftmost second ≢ leftmost first
      → carry_out_all (moves first) (
          replace
            (leftmost first)
            (split direction ratio (leaf (leftmost first)) (leaf (leftmost second)))
            there)
        ≡ replace (leftmost first) (split direction ratio first (leaf (leftmost second))) there
  first_half direction ratio first second there one other =
      let lf = leftmost first in
      let pair : Layout Number = split direction ratio (leaf lf) (leaf (leftmost second)) in
      let half : Layout Number = split direction ratio first (leaf (leftmost second)) in
      let whole : replace lf first pair ≡ half = ground arith in
      one ∙ (replace_again lf first pair there ∙ ap (λ x. replace lf x there) whole)

  pub leftmost_apart :
      (direction : SplitDirection) (ratio : Option Number) (first second there : Layout Number)
      → Halves direction ratio first second there
      → leftmost second ≢ leftmost first
  leftmost_apart direction ratio first second there h =
      λ e. ground (arith, h.missing, holds-leftmost first, ap (λ p. holds p first) e)

  -- The moves of a layout, where its leftmost pane stands and no other of its panes, put it there.
  pub carry_out_all-moves :
      (layout there : Layout Number)
      → IsDistinct layout
      → ((p : Text) → holds p layout ≡ true → p ≢ leftmost layout → holds p there ≡ false)
      → carry_out_all (moves layout) there ≡ replace (leftmost layout) layout there
  carry_out_all-moves (leaf pane) there d a = sym (replace_leaf pane there)
  carry_out_all-moves (split direction ratio first second) there d a =
      let lf = leftmost first in
      let ls = leftmost second in
      let half : Layout Number = split direction ratio first (leaf ls) in
      let pair : Layout Number = split direction ratio (leaf lf) (leaf ls) in
      let h = halves direction ratio first second there d a in
      let one = carry_out_all-moves first (replace lf pair there) d.0.0 h.clear_first in
      let placed =
        first_half direction ratio first second there one
          (leftmost_apart direction ratio first second there h) in
      let two = carry_out_all-moves second (replace lf half there) d.0.1 h.clear_second in
      let both : replace ls second half ≡ split direction ratio first second =
        ground (arith, replace_missing ls second first h.missing) in
      carry_out_all-append (moves first) (moves second) (replace lf pair there)
      ∙ (ap (λ x. carry_out_all (moves second) x) placed
          ∙ (two
              ∙ (replace-replace lf ls second half there h.away
                  ∙ ap (λ x. replace lf x there) both)))

-- The arrangement that an exported tree of so many levels describes, if it is one.
module _ {Value Number : Type 0} (json : Json Value Number) where
  pub data Describes : ℕ → Value → Layout Number → Type 0 where
    describes_pane :
        {levels : ℕ} {node : Value}
        → (pane : Text) → node_kind json node ≡ pane_node
        → text_at json node (text "pane_id") ≡ some pane
        → Describes (suc levels) node (leaf pane)
    describes_split :
        {levels : ℕ} {node first second : Value} {one two : Layout Number}
        → (direction : SplitDirection) → node_kind json node ≡ split_node
        → json.get node (text "first") ≡ some first
        → json.get node (text "second") ≡ some second
        → node_direction json node ≡ ok direction
        → Describes levels first one
        → Describes levels second two
        → Describes (suc levels) node (split direction (ratio_of json node) one two)

  pub leftmost_pane-Describes :
      {levels : ℕ} {node : Value} {layout : Layout Number}
      → Describes levels node layout
      → leftmost_pane json levels node ≡ ok (leftmost layout)
  unfolding leftmost_pane
  leftmost_pane-Describes (describes_pane pane kind id) = rw (leftmost_pane, kind, id) refl
  leftmost_pane-Describes (describes_split direction kind one two turn d e) =
      rw (leftmost_pane, kind, one) (leftmost_pane-Describes d)

  pub collect_splits-Describes :
      {levels : ℕ} {node : Value} {layout : Layout Number}
      → Describes levels node layout
      → collect_splits json levels node ≡ ok (moves layout)
  unfolding collect_splits
  collect_splits-Describes (describes_pane pane kind id) = rw (collect_splits, kind) refl
  collect_splits-Describes (describes_split direction kind one two turn d e) =
      rw
        (
          collect_splits,
          kind,
          one,
          two,
          turn,
          leftmost_pane-Describes e,
          leftmost_pane-Describes d,
          collect_splits-Describes d,
          collect_splits-Describes e,
        )
        refl

  abbrev pub plan_of : Layout Number → TabMovePlan Number
  plan_of layout = record { anchor_pane = leftmost layout; splits = moves layout }

  pub plan_tab_move-Describes :
      (root : Value) (layout : Layout Number)
      → Describes 65 root layout
      → plan_tab_move json root ≡ ok (plan_of layout)
  unfolding plan_tab_move
  plan_tab_move-Describes root layout described =
      rw (plan_tab_move, leftmost_pane-Describes described, collect_splits-Describes described) refl

  -- A tree of at most 64 levels below its root that describes an arrangement in which no pane stands
  -- twice has a plan, and the plan carried out builds exactly that arrangement.
  pub build-plan_tab_move :
      (root : Value) (layout : Layout Number)
      → Describes 65 root layout
      → IsDistinct layout
      → (plan : TabMovePlan Number) × ((plan_tab_move json root ≡ ok plan) × (build plan ≡ layout))
  build-plan_tab_move root layout described d = (
    plan_of layout,
    (
      plan_tab_move-Describes root layout described,
      carry_out_all-moves layout (leaf (leftmost layout)) d (λ p h n. ground arith) ∙ ground arith,
    ),
  )
