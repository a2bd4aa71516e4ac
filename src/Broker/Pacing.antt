-- ===== src/Broker/Pacing.antt =====
-- src/daemon/broker.rs: how each operation on clients and routes keeps to the limit on screen updates
-- that a viewer has yet to acknowledge.
use super_herdr.Common.{ℕ, ◌≤◌, ◌≡◌, sym, subst, some, List, [], ◌∷◌, inl, inr, arith}
use super_herdr.Common.Tests.{is_some, Option-cases, if_rule}
use super_herdr.Common.Lists.{length}
use super_herdr.Common.Order.{nat_ord}
use super_herdr.Common.Maps.{Map, keys, lookup, insert, remove, lookup-insert}
use super_herdr.Common.Every.{Every, Every-empty, Every-insert, Every-remove, Every-adjust}
use super_herdr.Model.{PaneId, id_ord}
use super_herdr.Payloads.{TerminalAccess}
use super_herdr.Protocol.{PaneRepresentation}
use super_herdr.Broker.State.{
  ClientId, PaneSubscription, Client, new_client, Broker, max_outstanding_screen_updates,
}
use super_herdr.Broker.Leases.{
  Reply, subscription, adjust_client, adjust_subscription, grant, replay, subscribe_pane,
  fresh_subscription, connect, set_route,
}
use super_herdr.Broker.Control.{disconnect, unsubscribe_pane, release_pane, release_panes}
use super_herdr.Broker.Events.{forget_pane, pane_route_closed}
use super_herdr.Broker.Federated.{close_routes}
use super_herdr.Broker.Release.{release_pane-clients}
use super_herdr.Broker.Departure.{release_panes-clients}
use super_herdr.Broker.Takers.{enrolled}

-- The subscription has not got more updates outstanding than the limit.
abbrev pub IsPaced : PaneSubscription → Type 0
IsPaced sub = length sub.outstanding ≤ max_outstanding_screen_updates

abbrev pub PacedClient : Client → Type 0
PacedClient session = Every IsPaced session.panes

module _ {Parser : Type 0} where
  -- Every subscription of every client is paced.
  abbrev pub Paced : Broker Parser → Type 0
  Paced b = Every PacedClient b.clients

  pub clients-Paced : (b b' : Broker Parser) → b'.clients ≡ b.clients → Paced b → Paced b'
  clients-Paced b b' e h = subst (λ (m : Map ClientId Client). Every PacedClient m) (sym e) h

  pub adjust_client-Paced :
      (client : ClientId) (f : Client → Client) (b : Broker Parser)
      → ((session : Client) → PacedClient session → PacedClient (f session))
      → Paced b
      → Paced (adjust_client client f b)
  unfolding adjust_client
  adjust_client-Paced client f b p h =
      Every-adjust _ client f b.clients (λ session e. p session (h client session e)) h

  -- What `f` does to the subscription that is there.
  pub adjust_subscription-Paced :
      (client : ClientId) (pane : PaneId) (f : PaneSubscription → PaneSubscription)
      (b : Broker Parser)
      → ((sub : PaneSubscription) → subscription b client pane ≡ some sub → IsPaced (f sub))
      → Paced b
      → Paced (adjust_subscription client pane f b)
  unfolding adjust_subscription adjust_client subscription
  adjust_subscription-Paced client pane f b p h =
      Every-adjust _ client _ b.clients
        (λ session e.
          Every-adjust IsPaced pane f session.panes (λ sub g. p sub (rw (e, subscription) g))
            (h client session e))
        h

  pub connect-Paced : (b : Broker Parser) → Paced b → Paced (connect b).0
  unfolding connect
  connect-Paced b h =
      Every-insert PacedClient b.next_client new_client b.clients (Every-empty IsPaced) h

  pub disconnect-Paced :
      (client : ClientId) (b : Broker Parser) → Paced b → Paced (disconnect client b).0
  unfolding disconnect
  disconnect-Paced client b h = elim (Option-cases (lookup client b.clients)) [
    | inl e ↦ rw (e, disconnect) h
    | inr (session, e) ↦
        let b1 = record b { clients = remove client b.clients } in
        rw (e, disconnect)
          (clients-Paced b1 (release_panes client (keys session.panes) b1).0
            (release_panes-clients client (keys session.panes) b1).0
            (Every-remove PacedClient client b.clients h))
  ]

  pub unsubscribe_pane-Paced :
      (client : ClientId) (pane : PaneId) (b : Broker Parser)
      → Paced b
      → Paced (unsubscribe_pane client pane b).0
  unfolding unsubscribe_pane
  unsubscribe_pane-Paced client pane b h =
      let f = λ (session : Client). record session { panes = remove pane session.panes } in
      if_rule (λ (r : Reply Parser). Paced r.0) (is_some (subscription b client pane))
        (clients-Paced (adjust_client client f b)
          (release_pane client pane (adjust_client client f b)).0
          (release_pane-clients client pane (adjust_client client f b))
          (adjust_client-Paced client f b (λ session. Every-remove IsPaced pane session.panes) h))
        h

  forget_pane-Paced :
      (pane : PaneId) (clients : List ClientId) (b : Broker Parser)
      → Paced b
      → Paced (forget_pane pane clients b)
  unfolding forget_pane
  forget_pane-Paced pane [] b h = h
  forget_pane-Paced pane (client ∷ clients) b h =
      forget_pane-Paced pane clients _
        (adjust_client-Paced client _ b (λ session. Every-remove IsPaced pane session.panes) h)

  pub pane_route_closed-Paced :
      (pane : PaneId) (b : Broker Parser) → Paced b → Paced (pane_route_closed pane b).0
  unfolding pane_route_closed
  pane_route_closed-Paced pane b h = elim (Option-cases (lookup pane b.routes)) [
    | inl e ↦ rw (e, pane_route_closed) h
    | inr (route, e) ↦
        rw (e, pane_route_closed) (forget_pane-Paced pane (keys route.subscribers) _ h)
  ]

  pub close_routes-Paced :
      (panes : List PaneId) (b : Broker Parser) → Paced b → Paced (close_routes panes b).0
  unfolding close_routes
  close_routes-Paced [] b h = h
  close_routes-Paced (pane ∷ panes) b h =
      close_routes-Paced panes _ (pane_route_closed-Paced pane b h)

  grant-clients :
      (client : ClientId) (pane : PaneId) (access : TerminalAccess) (cols rows : ℕ)
      (b : Broker Parser)
      → (grant client pane access cols rows b).0.clients ≡ b.clients
  unfolding grant set_route
  grant-clients client pane access cols rows b = ground arith

  replay-Paced :
      (client : ClientId) (pane : PaneId) (representation : PaneRepresentation) (b : Broker Parser)
      → ((sub : PaneSubscription) → subscription b client pane ≡ some sub → sub.outstanding ≡ [])
      → Paced b
      → Paced (replay client pane representation b).0
  unfolding replay
  replay-Paced client pane PaneRepresentation.frames b none_out h = h
  replay-Paced client pane PaneRepresentation.screen b none_out h =
      elim (Option-cases (lookup pane b.screens)) [
        | inl e ↦ rw (e, replay) h
        | inr (state, e) ↦
            rw (e, replay)
              (adjust_subscription-Paced client pane _ b
                (λ sub g. rw (none_out sub g) (omega arith)) h)
      ]

  enrolled_fresh :
      (client : ClientId) (session : Client) (pane : PaneId) (sub : PaneSubscription)
      (b b' : Broker Parser)
      → b'.clients ≡ (enrolled client session pane sub b).clients
      → subscription b' client pane ≡ some sub
  unfolding subscription
  enrolled_fresh client session pane sub b b' e =
      let held = record session { panes = insert pane sub session.panes } in
      rw e (
        ground (
          arith,
          lookup-insert client held b.clients client,
          lookup-insert pane sub session.panes pane,
        ))

  pub subscribe_pane-Paced :
      (client : ClientId) (pane : PaneId) (access : TerminalAccess) (cols rows : ℕ)
      (representation : PaneRepresentation) (b : Broker Parser)
      → Paced b
      → Paced (subscribe_pane client pane access cols rows representation b).0
  unfolding subscribe_pane
  subscribe_pane-Paced client pane access cols rows representation b h =
      elim (Option-cases (lookup client b.clients)) [
        | inl e ↦ rw (e, subscribe_pane) h
        | inr (session, e) ↦
            let sub = fresh_subscription access cols rows representation in
            let b1 = enrolled client session pane sub b in
            let b2 = (grant client pane access cols rows b1).0 in
            let same = grant-clients client pane access cols rows b1 in
            rw (e, subscribe_pane)
              (replay-Paced client pane representation b2
                (λ held g. ground (arith, g, enrolled_fresh client session pane sub b b2 same))
                (clients-Paced b1 b2 same (
                  Every-insert PacedClient client _ b.clients
                    (Every-insert IsPaced pane sub session.panes (omega arith) (h client session e))
                    h)))
      ]
