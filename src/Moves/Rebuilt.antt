-- ===== src/Moves/Rebuilt.antt =====
-- src/workspace_move.rs: that a tab is rebuilt where it is moved, by a Herdr that may refuse any
-- request and gives the panes new names of its own.
use super_herdr.Common.{
  ◌≡◌, ◌≢◌, ◌⊎◌, refl, sym, ap, subst, ◌∙◌, true, false, Option, none, some, ite, List, [], ◌∷◌,
  ◌++◌, inl, inr, arith,
}
use super_herdr.Common.Tests.{saturating_add, Bool-cases}
use super_herdr.Common.Order.{Text, text_ord}
use super_herdr.Common.Results.{Result, ok, err}
use super_herdr.Common.Maps.{Map, lookup, insert, lookup-insert}
use super_herdr.Payloads.{SplitDirection}
use super_herdr.Moves.{Json, SplitMove, ExportedTab, moved_pane, record_move, plan_tab_move}
use super_herdr.Moves.Rebuild.{
  Layout, leaf, split, replace, carry_out, carry_out_all, holds, IsDistinct, leftmost, moves,
  halves, leftmost_apart, first_half, carry_out_all-moves, Describes, plan_of,
  plan_tab_move-Describes,
}
use super_herdr.Moves.Carry.{
  Request, answered, request, fill_tab, move_to_new_tab, move_to_tab, Failure, api_error, Moved,
  place_splits, created_tab, move_tab,
}

-- The name that is known of a pane that moved, or else its own.
abbrev pub name_in : Map Text Text → Text → Text
name_in ids pane = elim (lookup pane ids) [ none ↦ pane | some id ↦ id ]

name_in-insert :
    (ids : Map Text Text) (pane id a : Text)
    → name_in (insert pane id ids) a ≡ ite (text_ord.same pane a) id (name_in ids a)
name_in-insert ids pane id a = ground (arith, lookup-insert pane id ids a)

-- An answer, or the message of an error.
answer-cases :
    {A S : Type 0} (r : Result Text A × S)
    → ((answer : A) × ((after : S) × (r ≡ (ok answer, after))))
      ⊎ ((message : Text) × ((after : S) × (r ≡ (err message, after))))
answer-cases (ok answer, after) = inl (answer, (after, refl))
answer-cases (err message, after) = inr (message, (after, refl))

module _ {Number : Type 0} where
  -- The same arrangement of panes by other names.
  abbrev pub renamed : (Text → Text) → Layout Number → Layout Number
  renamed rename (leaf pane) = leaf (rename pane)
  renamed rename (split direction ratio first second) =
      split direction ratio (renamed rename first) (renamed rename second)

  holds-renamed :
      (rename : Text → Text) (pane : Text) (layout : Layout Number)
      → holds pane layout ≡ true
      → holds (rename pane) (renamed rename layout) ≡ true
  holds-renamed rename pane (leaf held) h = ground (arith, ap rename {x = held} {y = pane})
  holds-renamed rename pane (split direction ratio first second) h =
      ground (arith, holds-renamed rename pane first, holds-renamed rename pane second)

  -- What stands where a pane was replaced stood there before, or in what replaced it.
  holds-replaced :
      (q pane : Text) (other layout : Layout Number)
      → holds pane layout ≡ true
      → holds q other ≡ true
      → holds q (replace pane other layout) ≡ true
  holds-replaced q pane other (leaf held) h k = ground arith
  holds-replaced q pane other (split direction ratio first second) h k =
      ground (arith, holds-replaced q pane other first, holds-replaced q pane other second)

  holds-carry_out :
      (a : Text) (move : SplitMove Number) (layout : Layout Number)
      → holds a (carry_out move layout) ≡ true
      → holds a layout ≡ false
      → move.pane ≡ a
  holds-carry_out a move (leaf held) h k = ground arith
  holds-carry_out a move (split direction ratio first second) h k =
      ground (arith, holds-carry_out a move first, holds-carry_out a move second)

  -- A split by the names of before, and then the names of afterwards, is the split by new names.
  renamed-replace :
      (f g : Text → Text) (target : Text) (here there layout : Layout Number)
      → ((a : Text) → holds a layout ≡ true → f a ≡ f target → a ≡ target)
      → ((a : Text) → holds a layout ≡ true → g a ≡ f a)
      → renamed g here ≡ there
      → replace (f target) there (renamed f layout) ≡ renamed g (replace target here layout)
  renamed-replace f g target here there (leaf held) apart agree e =
      ground (arith, apart held, agree held, ap f {x = held} {y = target}, e)
  renamed-replace f g target here there (split direction ratio first second) apart agree e =
      let one =
        renamed-replace f g target here there first (λ a h. apart a (ground arith))
          (λ a h. agree a (ground arith)) e in
      let two =
        renamed-replace f g target here there second (λ a h. apart a (ground arith))
          (λ a h. agree a (ground arith)) e in
      rw (one, two) refl

  -- Every pane that is moved is new there, and its target stands there.
  abbrev pub Ready : List (SplitMove Number) → Layout Number → Type 0
  Ready [] there = Unit
  Ready (move ∷ rest) there =
      ((holds move.target_pane there ≡ true) × (holds move.pane there ≡ false))
      × Ready rest (carry_out move there)

  Ready-append :
      (a b : List (SplitMove Number)) (there : Layout Number)
      → Ready a there
      → Ready b (carry_out_all a there)
      → Ready (a ++ b) there
  Ready-append [] b there r s = s
  Ready-append (move ∷ a) b there r s = (r.0, Ready-append a b (carry_out move there) r.1 s)

  Ready-moves :
      (layout there : Layout Number)
      → IsDistinct layout
      → holds (leftmost layout) there ≡ true
      → ((p : Text) → holds p layout ≡ true → p ≢ leftmost layout → holds p there ≡ false)
      → Ready (moves layout) there
  Ready-moves (leaf pane) there d k a = tt
  Ready-moves (split direction ratio first second) there d k a =
      let lf = leftmost first in
      let ls = leftmost second in
      let pair : Layout Number = split direction ratio (leaf lf) (leaf ls) in
      let half : Layout Number = split direction ratio first (leaf ls) in
      let h = halves direction ratio first second there d a in
      let one = carry_out_all-moves first (replace lf pair there) d.0.0 h.clear_first in
      let placed =
        first_half direction ratio first second there one
          (leftmost_apart direction ratio first second there h) in
      (
        (k, h.away),
        Ready-append (moves first) (moves second) (replace lf pair there)
            (Ready-moves first (replace lf pair there) d.0.0
              (holds-replaced lf lf pair there k (ground arith)) h.clear_first)
            (subst (Ready (moves second)) (sym placed) (
              Ready-moves second (replace lf half there) d.0.1
                (holds-replaced ls lf half there k (ground arith)) h.clear_second)),
      )

  -- No two panes that stand in an arrangement have one new name.
  abbrev pub IsApart : Map Text Text → Layout Number → Type 0
  IsApart ids layout =
      (a b : Text)
      → holds a layout ≡ true
      → holds b layout ≡ true
      → name_in ids a ≡ name_in ids b
      → a ≡ b

  name_kept :
      (ids : Map Text Text) (pane id a : Text) (layout : Layout Number)
      → holds pane layout ≡ false
      → holds a layout ≡ true
      → name_in (insert pane id ids) a ≡ name_in ids a
  name_kept ids pane id a layout h k =
      ground (arith, name_in-insert ids pane id a, ap (λ q. holds q layout) {x = pane} {y = a})

  IsApart-carry_out :
      (ids : Map Text Text) (move : SplitMove Number) (id : Text) (layout : Layout Number)
      → IsApart ids layout
      → holds move.pane layout ≡ false
      → holds id (renamed (name_in ids) layout) ≡ false
      → IsApart (insert move.pane id ids) (carry_out move layout)
  IsApart-carry_out ids move id layout apart new fresh a b h k e =
      let here = name_in-insert ids move.pane id in
      elim (Bool-cases (holds a layout)) [
        | inl old ↦ elim (Bool-cases (holds b layout)) [
          | inl held ↦ apart a b old held (
              sym (name_kept ids move.pane id a layout new old)
              ∙ (e ∙ name_kept ids move.pane id b layout new held))
          | inr other ↦ ground (
            arith,
            holds-carry_out b move layout k other,
            name_kept ids move.pane id a layout new old,
            here b,
            holds-renamed (name_in ids) a layout old,
            ap (λ q. holds q (renamed (name_in ids) layout)) {x = name_in ids a} {y = id},
          )
        ]
        | inr mine ↦ elim (Bool-cases (holds b layout)) [
          | inl held ↦ ground (
            arith,
            holds-carry_out a move layout h mine,
            name_kept ids move.pane id b layout new held,
            here a,
            holds-renamed (name_in ids) b layout held,
            ap (λ q. holds q (renamed (name_in ids) layout)) {x = name_in ids b} {y = id},
          )
          | inr other ↦
              sym (holds-carry_out a move layout h mine) ∙ holds-carry_out b move layout k other
        ]
      ]

  renamed-carry_out :
      (ids : Map Text Text) (move : SplitMove Number) (id : Text) (layout : Layout Number)
      → IsApart ids layout
      → holds move.pane layout ≡ false
      → holds move.target_pane layout ≡ true
      → carry_out
          (record move { pane = id; target_pane = name_in ids move.target_pane })
          (renamed (name_in ids) layout)
        ≡ renamed (name_in (insert move.pane id ids)) (carry_out move layout)
  renamed-carry_out ids move id layout apart new known =
      renamed-replace (name_in ids) (name_in (insert move.pane id ids)) move.target_pane
        (split move.direction move.ratio (leaf move.target_pane) (leaf move.pane))
        (split move.direction move.ratio (leaf (name_in ids move.target_pane)) (leaf id)) layout
        (λ a h. apart a move.target_pane h known) (λ a h. name_kept ids move.pane id a layout new h)
        (rw
          (
            name_kept ids move.pane id move.target_pane layout new known,
            name_in-insert ids move.pane id move.pane,
          )
          (ground arith))

-- What Herdr documents, of requests that it does not refuse. `layouts` is how it arranges each tab. A
-- pane that is moved beside one of another tab shares its place there, and one that is moved to a
-- new tab stands there alone; the answer tells by which name, which no pane of the tab has yet, and the
-- new tab.
pub record Faithful {Value Number S : Type 0} (json : Json Value Number)
    (ask : S → Request Number → Result Text Value × S) (layouts : S → Text → Layout Number)
    : Type 0 where
  pub splits :
      (s after : S) (pane tab : Text) (direction : SplitDirection) (target : Text)
      (ratio : Option Number) (answer : Value)
      → ask s (move_to_tab pane tab direction target ratio) ≡ (ok answer, after)
      → holds target (layouts s tab) ≡ true
      → (id : Text) × ((moved_pane json answer ≡ some id)
          × ((holds id (layouts s tab) ≡ false)
              × (layouts after tab
                  ≡ carry_out
                      (record {
                        pane = id;
                        target_pane = target;
                        direction = direction;
                        ratio = ratio;
                      })
                      (layouts s tab))))
  pub opens :
      (s after : S) (pane workspace : Text) (label : Option Text) (answer : Value)
      → ask s (move_to_new_tab pane workspace label) ≡ (ok answer, after)
      → (id : Text) × ((tab : Text) × ((moved_pane json answer ≡ some id)
            × ((created_tab json answer ≡ some tab) × (layouts after tab ≡ leaf id))))

module _ {Value Number S : Type 0} (json : Json Value Number)
    (ask : S → Request Number → Result Text Value × S) where
  -- Herdr refused a request, and what was run ends with its message.
  pub record IsRefused (outcome : Result Failure Moved × S) : Type 0 where
    pub before : S
    pub what : Request Number
    pub message : Text
    pub after : S
    pub refused : ask before what ≡ (err message, after)
    pub told : outcome ≡ (err (api_error message), after)

  -- A tab is arranged as it was, each pane by the name that is known of it.
  pub record IsRebuilt (layouts : S → Text → Layout Number) (tab : Text) (layout : Layout Number)
      (outcome : Result Failure Moved × S) : Type 0 where
    pub result : Moved
    pub after : S
    pub done : outcome ≡ (ok result, after)
    pub arranged : layouts after tab ≡ renamed (name_in result.0) layout

module _ {Value Number S : Type 0} (json : Json Value Number)
    (ask : S → Request Number → Result Text Value × S) (layouts : S → Text → Layout Number)
    (herdr : Faithful json ask layouts) where
  record_move-ids :
      (pane id : Text) (answer : Value) (moved : Moved)
      → moved_pane json answer ≡ some id
      → (record_move json pane answer moved).0 ≡ insert pane id moved.0
  unfolding record_move
  record_move-ids pane id answer (ids, summary) e = rw (record_move, e) refl

  answered_by :
      (what : Request Number) (s after : S) (answer : Result Text Value)
      (next : Value → S → Result Failure Moved × S)
      → ask s what ≡ (answer, after)
      → request json ask what s next ≡ answered json ask (answer, after) next
  answered_by what s after answer next e = ap (λ r. answered json ask r next) e

  -- Splits that are ready, where the arrangement so far has other names.
  place_splits-Ready :
      (tab : Text) (list : List (SplitMove Number)) (there : Layout Number) (moved : Moved) (s : S)
      → Ready list there
      → IsApart moved.0 there
      → layouts s tab ≡ renamed (name_in moved.0) there
      → IsRebuilt json ask layouts tab
          (carry_out_all list there)
          (place_splits json ask tab list moved s)
        ⊎ IsRefused json ask (place_splits json ask tab list moved s)
  unfolding place_splits
  place_splits-Ready tab [] there moved s ready apart e =
      inl (record { result = moved; after = s; done = refl; arranged = e })
  place_splits-Ready tab (move ∷ list) there moved s ready apart e =
      let target = name_in moved.0 move.target_pane in
      let what : Request Number = move_to_tab move.pane tab move.direction target move.ratio in
      let next = λ (value : Value) (later : S).
        place_splits json ask tab list (record_move json move.pane value moved) later in
      elim (answer-cases (ask s what)) [
        | inr (message, (after, refused)) ↦ inr (record {
          before = s;
          what = what;
          message = message;
          after = after;
          refused = refused;
          told = answered_by what s after (err message) next refused;
        })
        | inl (answer, (after, asked)) ↦
            let stands : holds target (layouts s tab) ≡ true =
              rw e (holds-renamed (name_in moved.0) move.target_pane there ready.0.0) in
            let (id, (told, (fresh, placed))) =
              herdr.splits s after move.pane tab move.direction target move.ratio answer asked
                stands in
            let moved1 = record_move json move.pane answer moved in
            let ids = record_move-ids move.pane id answer moved told in
            let fresh1 : holds id (renamed (name_in moved.0) there) ≡ false =
              subst (λ x. holds id x ≡ false) e fresh in
            let apart1 : IsApart moved1.0 (carry_out move there) =
              rw ids (IsApart-carry_out moved.0 move id there apart ready.0.1 fresh1) in
            let here : layouts after tab ≡ renamed (name_in moved1.0) (carry_out move there) =
              rw ids (
                placed
                ∙ (ap (λ x. carry_out (record move { pane = id; target_pane = target }) x) e
                    ∙ renamed-carry_out moved.0 move id there apart ready.0.1 ready.0.0)) in
            let step = answered_by what s after (ok answer) next asked in
            elim (place_splits-Ready tab list (carry_out move there) moved1 after ready.1 apart1
              here) [
                | inl r ↦ inl (record {
                  result = r.result;
                  after = r.after;
                  done = step ∙ r.done;
                  arranged = r.arranged;
                })
                | inr r ↦ inr (record {
                  before = r.before;
                  what = r.what;
                  message = r.message;
                  after = r.after;
                  refused = r.refused;
                  told = step ∙ r.told;
                })
              ]
      ]

  pub move_tab-renamed :
      (workspace : Text) (tab : ExportedTab Value) (layout : Layout Number) (moved : Moved) (s : S)
      → Describes json 65 tab.root layout
      → IsDistinct layout
      → ((opened : Text) × IsRebuilt json ask layouts opened layout
            (move_tab json ask workspace tab moved s))
        ⊎ IsRefused json ask (move_tab json ask workspace tab moved s)
  unfolding move_tab fill_tab
  move_tab-renamed workspace tab layout moved s described distinct =
      let anchor = leftmost layout in
      let what : Request Number = move_to_new_tab anchor workspace tab.label in
      let next = fill_tab json ask (plan_of json layout) moved in
      let planned : plan_tab_move json tab.root ≡ ok (plan_of json layout) =
        plan_tab_move-Describes json tab.root layout described in
      elim (answer-cases (ask s what)) [
        | inr (message, (after, refused)) ↦ inr (record {
          before = s;
          what = what;
          message = message;
          after = after;
          refused = refused;
          told = rw (move_tab, planned) (answered_by what s after (err message) next refused);
        })
        | inl (answer, (after, asked)) ↦
            let (id, (opened, (told, (created, alone)))) =
              herdr.opens s after anchor workspace tab.label answer asked in
            let recorded = record_move json anchor answer moved in
            let moved1 : Moved =
              (recorded.0, record recorded.1 { tabs = saturating_add recorded.1.tabs 1 }) in
            let ids = record_move-ids anchor id answer moved told in
            let name : name_in moved1.0 anchor ≡ id =
              rw ids (name_in-insert moved.0 anchor id anchor ∙ ground arith) in
            let here : layouts after opened ≡ renamed (name_in moved1.0) (leaf anchor) =
              alone ∙ ap (λ x. leaf x) (sym name) in
            let ready : Ready (moves layout) (leaf anchor) =
              Ready-moves layout (leaf anchor) distinct (ground arith) (λ p h n. ground arith) in
            let whole : carry_out_all (moves layout) (leaf anchor) ≡ layout =
              carry_out_all-moves layout (leaf anchor) distinct (λ p h n. ground arith)
              ∙ ground arith in
            let step : move_tab json ask workspace tab moved s
                ≡ place_splits json ask opened (moves layout) moved1 after =
              rw (move_tab, planned)
                (answered_by what s after (ok answer) next asked ∙ rw (fill_tab, created) refl) in
            elim (place_splits-Ready opened (moves layout) (leaf anchor) moved1 after ready
              (λ a b h k e. ground arith) here) [
                | inl r ↦ inl (
                  opened,
                  record {
                    result = r.result;
                    after = r.after;
                    done = step ∙ r.done;
                    arranged = r.arranged ∙ ap (λ x. renamed (name_in r.result.0) x) whole;
                  },
                )
                | inr r ↦ inr (record {
                  before = r.before;
                  what = r.what;
                  message = r.message;
                  after = r.after;
                  refused = r.refused;
                  told = step ∙ r.told;
                })
              ]
      ]
