-- ===== src/Broker/Screens.antt =====
-- src/daemon/broker.rs: frames, and the rendered screens that some subscribers are sent instead.
use super_herdr.Common.{
  ℕ, Bool, true, false, not, ◌&&◌, ◌||◌, Option, none, some, List, [], ◌∷◌, ◌++◌, ite,
}
use super_herdr.Common.Tests.{leb, ◌==◌, if◌then◌else◌, next_u64}
use super_herdr.Common.Lists.{length, any}
use super_herdr.Common.Order.{nat_ord, list_same}
use super_herdr.Common.Maps.{lookup}
use super_herdr.Model.{PaneId, id_ord}
use super_herdr.Screen.{Snapshot, Row-discrete, Cursor-discrete, between}
use super_herdr.Screen.Render.{Vt100, snapshot_of}
use super_herdr.Protocol.{ServerMessage}
use super_herdr.Broker.State.{
  ClientId, Effect, PaneSubscription, ScreenState, Rendered, Broker, max_outstanding_screen_updates,
}
use super_herdr.Broker.Leases.{Reply, subscription, adjust_subscription}

-- The comparison in `advance`: everything but the sequence number.
unfoldable pub same_screen : Snapshot → Snapshot → Bool
same_screen a b =
    (a.width == b.width)
    && ((a.height == b.height)
        && (ite (list_same Row-discrete a.rows b.rows) true false
            && ite (Cursor-discrete a.cursor b.cursor) true false))

module _ {Parser : Type 0} (vt : Vt100 Parser) where
  -- `ScreenState::new`.
  unfoldable pub new_screen : ℕ → ℕ → ScreenState Parser
  new_screen width height = record {
    parser = vt.new height width;
    last = snapshot_of vt (vt.new height width) 0;
  }

  -- The emulator that a frame is fed to.
  unfoldable pub fed : ℕ → ℕ → Bool → List ℕ → Parser → Parser
  fed width height full bytes parser =
      let (rows, cols) = vt.size parser in
      let restarted = full || (not (rows == height) || not (cols == width)) in
      vt.process (if restarted then vt.new height width else parser) bytes

  -- `ScreenState::advance`.
  unfoldable pub advance :
      ℕ → ℕ → Bool → List ℕ → ScreenState Parser → ScreenState Parser × Rendered
  unfolding fed same_screen
  advance width height full bytes state =
      let parser = fed width height full bytes state.parser in
      let candidate = snapshot_of vt parser (next_u64 state.last.sequence) in
      if same_screen candidate state.last
      then (
        record state { parser = parser },
        record { screen = state.last; diff = none; changed = false },
      )
      else (
        record { parser = parser; last = candidate },
        record { screen = candidate; diff = between state.last candidate; changed = true },
      )

-- Whether the subscriber holds the update that the difference follows.
abbrev pub holds_update : ℕ → Option ℕ → Bool
holds_update follows none = false
holds_update follows (some sent) = sent == follows

-- `update_for`.
unfoldable pub update_for : Option ℕ → PaneId → Rendered → ServerMessage
update_for sent pane rendered = elim rendered.diff [
  | none ↦ ServerMessage.pane_screen pane rendered.screen
  | some diff ↦
      if holds_update diff.follows sent
      then ServerMessage.pane_screen_diff pane diff
      else ServerMessage.pane_screen pane rendered.screen
]

-- A subscription that has just been sent the update `sequence`.
unfoldable pub marked_sent : ℕ → PaneSubscription → PaneSubscription
marked_sent sequence sub = record sub {
  sent = some sequence;
  outstanding = sub.outstanding ++ (sequence ∷ []);
}

-- Whether `render_for` passes a subscriber over.
unfoldable pub is_skipped : Rendered → PaneSubscription → Bool
is_skipped rendered sub =
    (not rendered.changed && holds_update rendered.screen.sequence sub.sent)
    || leb max_outstanding_screen_updates (length sub.outstanding)

-- What an acknowledgement leaves outstanding.
unfoldable pub settle : ℕ → List ℕ → List ℕ
settle sequence [] = []
settle sequence (held ∷ rest) =
    let later = settle sequence rest in if leb held sequence then later else held ∷ rest

module _ {Parser : Type 0} where
  -- One round of the loop of `render_for`.
  unfoldable pub render_one : PaneId → Rendered → ClientId → Broker Parser → Reply Parser
  unfolding subscription adjust_subscription is_skipped marked_sent update_for
  render_one pane rendered client b = elim (subscription b client pane) [
    | none ↦ (b, [])
    | some sub ↦ if is_skipped rendered sub then (b, []) else (
      adjust_subscription client pane (marked_sent rendered.screen.sequence) b,
      Effect.send client (update_for sub.sent pane rendered) ∷ [],
    )
  ]

  unfoldable pub render_all : PaneId → Rendered → List ClientId → Broker Parser → Reply Parser
  unfolding render_one
  render_all pane rendered [] b = (b, [])
  render_all pane rendered (client ∷ clients) b =
      let (b1, effects) = render_one pane rendered client b in
      let (b2, more) = render_all pane rendered clients b1 in (b2, effects ++ more)

  -- `ack_pane_screen`, from the point where the sequence is known to be outstanding.
  unfoldable pub settled : ClientId → PaneId → ℕ → PaneSubscription → Broker Parser → Reply Parser
  unfolding adjust_subscription marked_sent update_for settle
  settled client pane sequence sub b =
      let rest = record sub { outstanding = settle sequence sub.outstanding } in
      let b1 = adjust_subscription client pane (λ _. rest) b in
      elim (lookup pane b.screens) [
        | none ↦ (b1, [])
        | some state ↦
            let rendered : Rendered = record { screen = state.last; diff = none; changed = true } in
            if holds_update state.last.sequence rest.sent
              || leb max_outstanding_screen_updates (length rest.outstanding)
            then (b1, [])
            else (
              adjust_subscription client pane (λ _. marked_sent state.last.sequence rest) b,
              Effect.send client (update_for rest.sent pane rendered) ∷ [],
            )
      ]

  unfoldable pub ack_pane_screen : ClientId → PaneId → ℕ → Broker Parser → Reply Parser
  unfolding subscription settled
  ack_pane_screen client pane sequence b = elim (subscription b client pane) [
    | none ↦ (b, [])
    | some sub ↦
        if any (λ held. held == sequence) sub.outstanding
        then settled client pane sequence sub b
        else (b, [])
  ]
