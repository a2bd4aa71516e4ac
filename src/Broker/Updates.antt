-- ===== src/Broker/Updates.antt =====
-- src/daemon/broker.rs: how sending and acknowledging screen updates keep to their limit.
use super_herdr.Common.{
  ℕ, ◌≡◌, sym, subst, ◌∙◌, Bool, false, ◌||◌, some, List, [], ◌∷◌, inl, inr, arith,
}
use super_herdr.Common.Tests.{leb, eq_of_some, ◌==◌, Bool-cases, Option-cases, if_rule}
use super_herdr.Common.Lists.{length, any, keep, length-append}
use super_herdr.Common.Order.{nat_ord}
use super_herdr.Common.Maps.{keys, lookup}
use super_herdr.Model.{PaneId, id_ord}
use super_herdr.Screen.Render.{Vt100}
use super_herdr.Broker.State.{
  ClientId, PaneSubscription, Rendered, Broker, max_outstanding_screen_updates,
}
use super_herdr.Broker.Leases.{Reply, subscription, representation_of, is_screen}
use super_herdr.Broker.Screens.{
  marked_sent, is_skipped, settle, settled, ack_pane_screen, render_one, render_all, holds_update,
}
use super_herdr.Broker.Events.{screen_frame, render_for, pane_frame}
use super_herdr.Broker.Pacing.{IsPaced, Paced, adjust_subscription-Paced}
use super_herdr.Broker.Flow.{settle-length-le}

-- A subscription with room for one more update stays paced when it is sent one.
pub marked_sent-IsPaced :
    (sequence : ℕ) (sub : PaneSubscription)
    → leb max_outstanding_screen_updates (length sub.outstanding) ≡ false
    → IsPaced (marked_sent sequence sub)
unfolding marked_sent
marked_sent-IsPaced sequence sub e = ground (arith, length-append sub.outstanding (sequence ∷ []))

pub not_skipped :
    (rendered : Rendered) (sub : PaneSubscription)
    → is_skipped rendered sub ≡ false
    → leb max_outstanding_screen_updates (length sub.outstanding) ≡ false
unfolding is_skipped
not_skipped rendered sub e = ground arith

pub or_right : (s t : Bool) → (s || t) ≡ false → t ≡ false
or_right s t e = ground arith

module _ {Parser : Type 0} where
  -- A subscription that is not passed over has room for one more.
  pub render_one-Paced :
      (pane : PaneId) (rendered : Rendered) (client : ClientId) (b : Broker Parser)
      → Paced b
      → Paced (render_one pane rendered client b).0
  unfolding render_one
  render_one-Paced pane rendered client b h = elim (Option-cases (subscription b client pane)) [
    | inl e ↦ rw (e, render_one) h
    | inr (sub, e) ↦ elim (Bool-cases (is_skipped rendered sub)) [
      | inl skip ↦ rw (e, render_one, skip) h
      | inr go ↦
          rw (e, render_one, go)
            (adjust_subscription-Paced client pane _ b
              (λ held g. marked_sent-IsPaced rendered.screen.sequence held (
                subst
                  (λ (x : PaneSubscription).
                    leb max_outstanding_screen_updates (length x.outstanding) ≡ false)
                  (eq_of_some sub held (sym e ∙ g)) (not_skipped rendered sub go)))
              h)
    ]
  ]

  pub render_all-Paced :
      (pane : PaneId) (rendered : Rendered) (clients : List ClientId) (b : Broker Parser)
      → Paced b
      → Paced (render_all pane rendered clients b).0
  unfolding render_all
  render_all-Paced pane rendered [] b h = h
  render_all-Paced pane rendered (client ∷ clients) b h =
      render_all-Paced pane rendered clients _ (render_one-Paced pane rendered client b h)

  pub screen_frame-Paced :
      (vt : Vt100 Parser) (pane : PaneId) (width height : ℕ) (full : Bool) (bytes : List ℕ)
      (clients : List ClientId) (b : Broker Parser)
      → Paced b
      → Paced (screen_frame vt pane width height full bytes clients b).0
  unfolding screen_frame render_for
  screen_frame-Paced vt pane width height full bytes [] b h = h
  screen_frame-Paced vt pane width height full bytes (client ∷ clients) b h =
      render_all-Paced pane _ (client ∷ clients) _ h

  pub pane_frame-Paced :
      (vt : Vt100 Parser) (pane : PaneId) (sequence width height : ℕ) (full : Bool) (bytes : List ℕ)
      (b : Broker Parser)
      → Paced b
      → Paced (pane_frame vt pane sequence width height full bytes b).0
  unfolding pane_frame
  pane_frame-Paced vt pane sequence width height full bytes b h =
      elim (Option-cases (lookup pane b.routes)) [
        | inl e ↦ rw (e, pane_frame) h
        | inr (route, e) ↦
            rw (e, pane_frame)
              (screen_frame-Paced vt pane width height full bytes
                (keep (λ client. is_screen (representation_of b pane client))
                  (keys route.subscribers))
                b h)
      ]

  pub settled-Paced :
      (client : ClientId) (pane : PaneId) (sequence : ℕ) (sub : PaneSubscription)
      (b : Broker Parser)
      → IsPaced sub
      → Paced b
      → Paced (settled client pane sequence sub b).0
  unfolding settled
  settled-Paced client pane sequence sub b v h = elim (Option-cases (lookup pane b.screens)) [
    | inl e ↦
        rw (e, settled)
          (adjust_subscription-Paced client pane _ b
            (λ held g. omega (arith, settle-length-le sequence sub.outstanding)) h)
    | inr (state, e) ↦
        let rest = record sub { outstanding = settle sequence sub.outstanding } in
        elim (Bool-cases (
          holds_update state.last.sequence rest.sent
          || leb max_outstanding_screen_updates (length rest.outstanding))) [
            | inl full ↦
                rw (e, settled, full)
                  (adjust_subscription-Paced client pane _ b
                    (λ held g. omega (arith, settle-length-le sequence sub.outstanding)) h)
            | inr free ↦
                rw (e, settled, free)
                  (adjust_subscription-Paced client pane _ b
                    (λ held g.
                      marked_sent-IsPaced state.last.sequence rest
                        (or_right (holds_update state.last.sequence rest.sent) _ free))
                    h)
          ]
  ]

  pub subscription-IsPaced :
      (client : ClientId) (pane : PaneId) (sub : PaneSubscription) (b : Broker Parser)
      → subscription b client pane ≡ some sub
      → Paced b
      → IsPaced sub
  unfolding subscription
  subscription-IsPaced client pane sub b e h = elim (Option-cases (lookup client b.clients)) [
    | inl f ↦ absurd (ground (arith, e, f))
    | inr (session, f) ↦ h client session f pane sub (rw (f, subscription) at e)
  ]

  pub ack_pane_screen-Paced :
      (client : ClientId) (pane : PaneId) (sequence : ℕ) (b : Broker Parser)
      → Paced b
      → Paced (ack_pane_screen client pane sequence b).0
  unfolding ack_pane_screen subscription
  ack_pane_screen-Paced client pane sequence b h =
      elim (Option-cases (subscription b client pane)) [
        | inl e ↦ rw (e, ack_pane_screen) h
        | inr (sub, e) ↦
            rw (e, ack_pane_screen)
              (if_rule (λ (r : Reply Parser). Paced r.0)
                (any (λ held. held == sequence) sub.outstanding)
                (settled-Paced client pane sequence sub b
                  (subscription-IsPaced client pane sub b e h) h)
                h)
      ]
