-- ===== src/Broker/Links.antt =====
-- src/daemon/broker.rs: the steps that move no client between panes, among them all that happens
-- to rendered screens, keep the broker well formed.
use super_herdr.Common.{
  ℕ, ◌≡◌, refl, sym, subst, ◌∙◌, Option, none, some, List, [], ◌∷◌, inl, inr, arith,
}
use super_herdr.Common.Tests.{◌==◌, is_some, Bool-cases, Option-cases, if_rule}
use super_herdr.Common.Lists.{any}
use super_herdr.Common.Order.{nat_ord}
use super_herdr.Common.Maps.{Map, lookup, adjust, remove, has, lookup-adjust, has-adjust}
use super_herdr.Model.{PaneId, id_ord}
use super_herdr.Protocol.{PaneRepresentation, frames, screen}
use super_herdr.Broker.State.{
  ClientId, PaneSubscription, Route, Client, Rendered, ScreenState, Broker,
}
use super_herdr.Broker.Leases.{Reply, subscription, adjust_client, adjust_subscription, replay}
use super_herdr.Broker.Control.{is_watched, release_screen_if_unwatched}
use super_herdr.Broker.Screens.{is_skipped, render_one, render_all, settled, ack_pane_screen}
use super_herdr.Broker.Invariant.{has_pane, has_subscriber, watches, WellFormed}

-- The same clients, subscriptions and routes.
pub record SameLinks {Parser : Type 0} (b b' : Broker Parser) : Type 0 where
  pub watched : (client : ClientId) (pane : PaneId) → watches b' client pane ≡ watches b client pane
  pub connected :
      (client : ClientId) → is_some (lookup client b'.clients) ≡ is_some (lookup client b.clients)
  pub routes : b'.routes ≡ b.routes
  pub next_client : b'.next_client ≡ b.next_client

module _ {Parser : Type 0} where
  pub SameLinks-refl : (b : Broker Parser) → SameLinks b b
  SameLinks-refl b = record {
    watched = λ client pane. refl;
    connected = λ client. refl;
    routes = refl;
    next_client = refl;
  }

  -- Screens take no part.
  pub SameLinks-with_screens :
      (b : Broker Parser) (screens : Map PaneId (ScreenState Parser))
      → SameLinks b (record b { screens = screens })
  SameLinks-with_screens b screens = record {
    watched = λ client p. refl;
    connected = λ client. refl;
    routes = refl;
    next_client = refl;
  }

  pub SameLinks-trans :
      {b b' b'' : Broker Parser} → SameLinks b b' → SameLinks b' b'' → SameLinks b b''
  SameLinks-trans s t = record {
    watched = λ client pane. t.watched client pane ∙ s.watched client pane;
    connected = λ client. t.connected client ∙ s.connected client;
    routes = t.routes ∙ s.routes;
    next_client = t.next_client ∙ s.next_client;
  }

  pub SameLinks-WellFormed : {b b' : Broker Parser} → SameLinks b b' → WellFormed b → WellFormed b'
  SameLinks-WellFormed {b} {b'} s w = record {
    linked = λ client pane.
        s.watched client pane
        ∙ (w.linked client pane
            ∙ sym (
                subst
                  (λ (m : Map PaneId Route).
                    has_subscriber client (lookup pane m)
                    ≡ has_subscriber client (lookup pane b.routes))
                  (sym s.routes) refl));
    routed = λ pane route e. w.routed pane route (rw (← s.routes) e);
    numbered = λ client h. rw s.next_client (w.numbered client (sym (s.connected client) ∙ h));
  }

  -- Rewriting a session without touching the set of its panes.
  pub adjust_client-SameLinks :
      (client : ClientId) (f : Client → Client) (b : Broker Parser)
      → ((session : Client) (pane : PaneId) → has pane (f session).panes ≡ has pane session.panes)
      → SameLinks b (adjust_client client f b)
  unfolding adjust_client
  adjust_client-SameLinks client f b keeps = record {
    watched = λ c pane. watched_at c pane (lookup c b.clients) refl;
    connected = λ c. ground (arith, lookup-adjust client f b.clients c);
    routes = refl;
    next_client = refl;
  }
    where
      watched_at :
          (c : ClientId) (pane : PaneId) (o : Option Client)
          → lookup c b.clients ≡ o
          → has_pane pane (lookup c (adjust client f b.clients))
            ≡ has_pane pane (lookup c b.clients)
      watched_at c pane none e = ground (arith, lookup-adjust client f b.clients c)
      watched_at c pane (some session) e =
          ground (arith, lookup-adjust client f b.clients c, keeps session pane)

  pub adjust_subscription-SameLinks :
      (client : ClientId) (pane : PaneId) (f : PaneSubscription → PaneSubscription)
      (b : Broker Parser)
      → SameLinks b (adjust_subscription client pane f b)
  unfolding adjust_subscription
  adjust_subscription-SameLinks client pane f b =
      adjust_client-SameLinks client _ b (λ session p. has-adjust pane f session.panes p)

  pub replay-SameLinks :
      (client : ClientId) (pane : PaneId) (representation : PaneRepresentation) (b : Broker Parser)
      → SameLinks b (replay client pane representation b).0
  unfolding replay
  replay-SameLinks client pane frames b = SameLinks-refl b
  replay-SameLinks client pane screen b = elim (Option-cases (lookup pane b.screens)) [
    | inl e ↦ rw (e, replay) (SameLinks-refl b)
    | inr (state, e) ↦ rw (e, replay) (adjust_subscription-SameLinks client pane _ b)
  ]

  pub render_one-SameLinks :
      (pane : PaneId) (rendered : Rendered) (client : ClientId) (b : Broker Parser)
      → SameLinks b (render_one pane rendered client b).0
  unfolding render_one
  render_one-SameLinks pane rendered client b = elim (Option-cases (subscription b client pane)) [
    | inl e ↦ rw (e, render_one) (SameLinks-refl b)
    | inr (sub, e) ↦ elim (Bool-cases (is_skipped rendered sub)) [
      | inl skip ↦ rw (e, render_one, skip) (SameLinks-refl b)
      | inr go ↦ rw (e, render_one, go) (adjust_subscription-SameLinks client pane _ b)
    ]
  ]

  pub render_all-SameLinks :
      (pane : PaneId) (rendered : Rendered) (clients : List ClientId) (b : Broker Parser)
      → SameLinks b (render_all pane rendered clients b).0
  unfolding render_all
  render_all-SameLinks pane rendered [] b = SameLinks-refl b
  render_all-SameLinks pane rendered (client ∷ clients) b =
      SameLinks-trans (render_one-SameLinks pane rendered client b)
        (render_all-SameLinks pane rendered clients (render_one pane rendered client b).0)

  settled-SameLinks :
      (client : ClientId) (pane : PaneId) (sequence : ℕ) (sub : PaneSubscription)
      (b : Broker Parser)
      → SameLinks b (settled client pane sequence sub b).0
  unfolding settled
  settled-SameLinks client pane sequence sub b = elim (Option-cases (lookup pane b.screens)) [
    | inl e ↦ rw (e, settled) (adjust_subscription-SameLinks client pane _ b)
    | inr (state, e) ↦
        rw (e, settled)
          (if_rule (λ (r : Reply Parser). SameLinks b r.0) _
            (adjust_subscription-SameLinks client pane _ b)
            (adjust_subscription-SameLinks client pane _ b))
  ]

  pub ack_pane_screen-SameLinks :
      (client : ClientId) (pane : PaneId) (sequence : ℕ) (b : Broker Parser)
      → SameLinks b (ack_pane_screen client pane sequence b).0
  unfolding ack_pane_screen
  ack_pane_screen-SameLinks client pane sequence b =
      elim (Option-cases (subscription b client pane)) [
        | inl e ↦ rw (e, ack_pane_screen) (SameLinks-refl b)
        | inr (sub, e) ↦ elim (Bool-cases (any (λ held. held == sequence) sub.outstanding)) [
          | inl found ↦
              rw (e, ack_pane_screen, found) (settled-SameLinks client pane sequence sub b)
          | inr lost ↦ rw (e, ack_pane_screen, lost) (SameLinks-refl b)
        ]
      ]

  pub release_screen-SameLinks :
      (pane : PaneId) (b : Broker Parser) → SameLinks b (release_screen_if_unwatched pane b)
  unfolding release_screen_if_unwatched
  release_screen-SameLinks pane b = elim (Bool-cases (is_watched pane b)) [
    | inl seen ↦ rw (seen, release_screen_if_unwatched) (SameLinks-refl b)
    | inr unseen ↦
        rw (unseen, release_screen_if_unwatched) (SameLinks-with_screens b (remove pane b.screens))
  ]
