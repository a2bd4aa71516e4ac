-- ===== src/Broker/Departure.antt =====
-- src/daemon/broker.rs: a client that unsubscribes or disconnects.
use mathlib.Core.Bool.{false≢true}
use super_herdr.Common.{
  ◌≡◌, refl, sym, ap, ◌∙◌, true, false, Option, none, some, List, [], ◌∷◌, inl, inr, ite, arith,
}
use super_herdr.Common.Tests.{if◌then◌else◌, is_some, Bool-cases, Option-cases}
use super_herdr.Common.Order.{nat_ord}
use super_herdr.Common.Maps.{
  Map, keys, lookup, remove, lookup-remove, lookup-adjust, listed, listed-keys,
}
use super_herdr.Model.{PaneId, id_ord}
use super_herdr.Broker.State.{ClientId, Route, Client, Broker}
use super_herdr.Broker.Leases.{subscription, adjust_client, holds_control}
use super_herdr.Broker.Control.{release_pane, release_panes, disconnect, unsubscribe_pane}
use super_herdr.Broker.Invariant.{has_pane, has_subscriber, watches, subscribed, WellFormed}
use super_herdr.Broker.Routes.{Routed}
use super_herdr.Broker.Release.{
  without_pane, watches-without_pane, subscribed-release_pane, release_pane-Routed,
  release_pane-clients, release_pane-next_client,
}

module _ {Parser : Type 0} where
  subscribed-release_panes :
      (client : ClientId) (panes : List PaneId) (b : Broker Parser) (c : ClientId) (p : PaneId)
      → subscribed (release_panes client panes b).0 c p
        ≡ ite
            (nat_ord.same client c)
            (if listed p panes then false else subscribed b c p)
            (subscribed b c p)
  unfolding release_panes
  subscribed-release_panes client [] b c p = ground arith
  subscribed-release_panes client (pane ∷ panes) b c p = ground (
    arith,
    subscribed-release_panes client panes (release_pane client pane b).0 c p,
    subscribed-release_pane client pane b c p,
  )

  release_panes-Routed :
      (client : ClientId) (panes : List PaneId) (b : Broker Parser)
      → Routed b
      → Routed (release_panes client panes b).0
  unfolding release_panes
  release_panes-Routed client [] b r = r
  release_panes-Routed client (pane ∷ panes) b r =
      release_panes-Routed client panes _ (release_pane-Routed client pane b r)

  pub release_panes-clients :
      (client : ClientId) (panes : List PaneId) (b : Broker Parser)
      → ((release_panes client panes b).0.clients ≡ b.clients)
        × ((release_panes client panes b).0.next_client ≡ b.next_client)
  unfolding release_panes
  release_panes-clients client [] b = (refl, refl)
  release_panes-clients client (pane ∷ panes) b =
      let (same_clients, same_next) =
        release_panes-clients client panes (release_pane client pane b).0 in
      (
        same_clients ∙ release_pane-clients client pane b,
        same_next ∙ release_pane-next_client client pane b,
      )

  -- The broker without the sessions of a client.
  abbrev without : ClientId → Broker Parser → Broker Parser
  without client b = record b { clients = remove client b.clients }

  watches-without :
      (client : ClientId) (b : Broker Parser) (c : ClientId) (p : PaneId)
      → watches (without client b) c p ≡ ite (nat_ord.same client c) false (watches b c p)
  watches-without client b c p = ground (arith, lookup-remove client b.clients c)

  still_connected :
      (client : ClientId) (b : Broker Parser) (c : ClientId)
      → is_some (lookup c (remove client b.clients)) ≡ true
      → is_some (lookup c b.clients) ≡ true
  still_connected client b c h = ground (arith, lookup-remove client b.clients c)

  -- What `disconnect` leaves, of a client that has a session.
  disconnected :
      (client : ClientId) (session : Client) (b : Broker Parser)
      → lookup client b.clients ≡ some session
      → WellFormed b
      → WellFormed (release_panes client (keys session.panes) (without client b)).0
  disconnected client session b e w =
      let (same_clients, same_next) =
        release_panes-clients client (keys session.panes) (without client b) in
      record {
        linked = λ c p.
            ap (λ (m : Map ClientId Client). has_pane p (lookup c m)) same_clients
            ∙ ground (
              arith,
              watches-without client b c p,
              subscribed-release_panes client (keys session.panes) (without client b) c p,
              listed-keys p session.panes,
              w.linked c p,
            );
        routed = release_panes-Routed client (keys session.panes) (without client b) w.routed;
        numbered = λ c h. rw same_next (
            w.numbered c (
              still_connected client b c
                (ap (λ (m : Map ClientId Client). is_some (lookup c m)) (sym same_clients) ∙ h)));
      }

  pub disconnect-WellFormed :
      (client : ClientId) (b : Broker Parser) → WellFormed b → WellFormed (disconnect client b).0
  unfolding disconnect
  disconnect-WellFormed client b w = elim (Option-cases (lookup client b.clients)) [
    | inl e ↦ rw (e, disconnect) w
    | inr (session, e) ↦ rw (e, disconnect) (disconnected client session b e w)
  ]

  -- A client without a session watches no pane.
  watches_of_none :
      (client : ClientId) (b : Broker Parser) (p : PaneId)
      → lookup client b.clients ≡ none
      → watches b client p ≡ false
  watches_of_none client b p e = ground arith

  gone :
      (client : ClientId) (b : Broker Parser) → lookup client (disconnect client b).0.clients ≡ none
  unfolding disconnect
  gone client b = elim (Option-cases (lookup client b.clients)) [
    | inl e ↦ rw (e, disconnect) e
    | inr (session, e) ↦
        rw (e, disconnect)
          (ap (λ (m : Map ClientId Client). lookup client m)
              (release_panes-clients client (keys session.panes) (without client b)).0
            ∙ ground (arith, lookup-remove client b.clients client))
  ]

  -- In a well-formed broker nobody holds the lease of a pane without watching it.
  pub watches_of_holds_control :
      (client : ClientId) (pane : PaneId) (b : Broker Parser)
      → WellFormed b
      → holds_control b client pane ≡ true
      → watches b client pane ≡ true
  unfolding holds_control
  watches_of_holds_control client pane b w h =
      w.linked client pane ∙ held_by (lookup pane b.routes) refl h
    where
      held_by :
          (o : Option Route)
          → lookup pane b.routes ≡ o
          → holds_control b client pane ≡ true
          → has_subscriber client (lookup pane b.routes) ≡ true
      held_by none e k = ground arith
      held_by (some route) e k = ground (arith, (w.routed pane route e).held client)

  -- A departed client has no session, is a subscriber of no route and holds no lease.
  pub disconnect_releases :
      (client : ClientId) (pane : PaneId) (b : Broker Parser)
      → WellFormed b
      → (lookup client (disconnect client b).0.clients ≡ none)
        × (subscribed (disconnect client b).0 client pane ≡ false)
        × (holds_control (disconnect client b).0 client pane ≡ false)
  disconnect_releases client pane b w =
      let b' = (disconnect client b).0 in
      let w' : WellFormed b' = disconnect-WellFormed client b w in
      let unwatched = watches_of_none client b' pane (gone client b) in
      (
        gone client b,
        sym (w'.linked client pane) ∙ unwatched,
        elim (Bool-cases (holds_control b' client pane)) [
          | inl h ↦
              absurd (false≢true (sym unwatched ∙ watches_of_holds_control client pane b' w' h))
          | inr h ↦ h
        ],
      )

  abbrev dropped : ClientId → PaneId → Broker Parser → Broker Parser
  dropped client pane b = adjust_client client (without_pane pane) b

  unsubscribed :
      (client : ClientId) (pane : PaneId) (b : Broker Parser)
      → WellFormed b
      → WellFormed (release_pane client pane (dropped client pane b)).0
  unfolding adjust_client
  unsubscribed client pane b w =
      let b1 = dropped client pane b in
      let same_clients = release_pane-clients client pane b1 in
      record {
        linked = λ c p.
            ap (λ (m : Map ClientId Client). has_pane p (lookup c m)) same_clients
            ∙ ground (
              arith,
              watches-without_pane client pane b c p,
              subscribed-release_pane client pane b1 c p,
              w.linked c p,
            );
        routed = release_pane-Routed client pane b1 w.routed;
        numbered = λ c h. rw (release_pane-next_client client pane b1) (
            w.numbered c (
              connected c
                (ap (λ (m : Map ClientId Client). is_some (lookup c m)) (sym same_clients) ∙ h)));
      }
    where
      connected :
          (c : ClientId)
          → is_some (lookup c (dropped client pane b).clients) ≡ true
          → is_some (lookup c b.clients) ≡ true
      connected c h = ground (arith, lookup-adjust client (without_pane pane) b.clients c)

  -- One subscription is dropped and its route told.
  pub unsubscribe_pane-WellFormed :
      (client : ClientId) (pane : PaneId) (b : Broker Parser)
      → WellFormed b
      → WellFormed (unsubscribe_pane client pane b).0
  unfolding unsubscribe_pane
  unsubscribe_pane-WellFormed client pane b w =
      elim (Bool-cases (is_some (subscription b client pane))) [
        | inr missing ↦ rw (missing, unsubscribe_pane) w
        | inl found ↦ rw (found, unsubscribe_pane) (unsubscribed client pane b w)
      ]
