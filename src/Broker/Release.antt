-- ===== src/Broker/Release.antt =====
-- src/daemon/broker.rs: what `release_pane` changes, and what `disconnect` leaves behind.
use super_herdr.Common.{◌≡◌, refl, sym, ap, ◌∙◌, false, Option, none, some, ite, arith}
use super_herdr.Common.Order.{nat_ord}
use super_herdr.Common.Maps.{Map, lookup, remove, adjust, has, lookup-adjust, has-remove}
use super_herdr.Model.{PaneId, id_ord}
use super_herdr.Broker.State.{ClientId, Route, Client, Broker}
use super_herdr.Broker.Leases.{set_route, adjust_client}
use super_herdr.Broker.Control.{left, surrendered, release_screen_if_unwatched, release_pane}
use super_herdr.Broker.Invariant.{has_pane, has_subscriber, watches, subscribed}
use super_herdr.Broker.Links.{SameLinks, release_screen-SameLinks}
use super_herdr.Broker.Routes.{
  Routed, RoutedBut, set_route-RoutedBut, set_route_repairs, surrendered-IsRoute, emptied-IsRoute,
  left_claimed, left-IsRoute, set_route-Routed, subscribed-set_route, release_pane_cases,
}

-- A session without its subscription to one pane.
abbrev pub without_pane : PaneId → Client → Client
without_pane pane session = record session { panes = remove pane session.panes }

module _ {Parser : Type 0} where
  pub watches-without_pane :
      (client : ClientId) (pane : PaneId) (b : Broker Parser) (c : ClientId) (p : PaneId)
      → watches (adjust_client client (without_pane pane) b) c p
        ≡ ite
            (id_ord.same pane p)
            (ite (nat_ord.same client c) false (watches b c p))
            (watches b c p)
  unfolding adjust_client
  watches-without_pane client pane b c p = session_of (lookup c b.clients) refl
    where
      session_of :
          (o : Option Client)
          → lookup c b.clients ≡ o
          → has_pane p (lookup c (adjust client (without_pane pane) b.clients))
            ≡ ite
                (id_ord.same pane p)
                (ite (nat_ord.same client c) false (watches b c p))
                (watches b c p)
      session_of none e = ground (arith, lookup-adjust client (without_pane pane) b.clients c)
      session_of (some session) e = ground (
        arith,
        lookup-adjust client (without_pane pane) b.clients c,
        has-remove pane session.panes p,
      )

  pub SameLinks-subscribed :
      {b b' : Broker Parser} (s : SameLinks b b') (c : ClientId) (p : PaneId)
      → subscribed b' c p ≡ subscribed b c p
  SameLinks-subscribed s c p = ap (λ (m : Map PaneId Route). has_subscriber c (lookup p m)) s.routes

  pub SameLinks-Routed : {b b' : Broker Parser} → SameLinks b b' → Routed b → Routed b'
  SameLinks-Routed {b} {b'} s r p route e =
      r p route (ap (λ (m : Map PaneId Route). lookup p m) (sym s.routes) ∙ e)

  SameLinks-RoutedBut :
      {b b' : Broker Parser} (pane : PaneId) → SameLinks b b' → RoutedBut pane b → RoutedBut pane b'
  SameLinks-RoutedBut {b} {b'} pane s r p route d e =
      r p route d (ap (λ (m : Map PaneId Route). lookup p m) (sym s.routes) ∙ e)

  -- A route from which one client has gone.
  subscribed-left :
      (client : ClientId) (pane : PaneId) (route : Route) (b : Broker Parser) (c : ClientId)
      (p : PaneId)
      → lookup pane b.routes ≡ some route
      → ite (id_ord.same pane p) (has c (left client route).subscribers) (subscribed b c p)
        ≡ ite
            (id_ord.same pane p)
            (ite (nat_ord.same client c) false (subscribed b c p))
            (subscribed b c p)
  unfolding left
  subscribed-left client pane route b c p e = ground (arith, has-remove client route.subscribers c)

  -- The client is no longer a subscriber of the pane, and no other subscription changes.
  pub subscribed-release_pane :
      (client : ClientId) (pane : PaneId) (b : Broker Parser) (c : ClientId) (p : PaneId)
      → subscribed (release_pane client pane b).0 c p
        ≡ ite
            (id_ord.same pane p)
            (ite (nat_ord.same client c) false (subscribed b c p))
            (subscribed b c p)
  unfolding surrendered
  subscribed-release_pane client pane b c p =
      release_pane_cases
        (λ r.
          subscribed r.0 c p
          ≡ ite (id_ord.same pane p) (ite (nat_ord.same client c) false (subscribed b c p))
              (subscribed b c p))
        client pane b (λ e. ground arith)
        (λ route e last.
          subscribed-set_route pane _ b c p ∙ subscribed-left client pane route b c p e)
        (λ route e others holder. surrendered_case route e)
        (λ route e others observer.
          SameLinks-subscribed (release_screen-SameLinks pane _) c p
          ∙ (subscribed-set_route pane _ b c p ∙ subscribed-left client pane route b c p e))
    where
      surrendered_case :
          (route : Route)
          → lookup pane b.routes ≡ some route
          → subscribed
              (set_route pane
                (surrendered (left client route))
                (release_screen_if_unwatched pane (set_route pane (left client route) b)))
              c
              p
            ≡ ite
                (id_ord.same pane p)
                (ite (nat_ord.same client c) false (subscribed b c p))
                (subscribed b c p)
      surrendered_case route e =
          let b1 = set_route pane (left client route) b in
          ground (
            arith,
            subscribed-set_route pane (surrendered (left client route))
                (release_screen_if_unwatched pane b1) c p,
            SameLinks-subscribed (release_screen-SameLinks pane b1) c p,
            subscribed-set_route pane (left client route) b c p,
            subscribed-left client pane route b c p e,
          )

  pub release_pane-Routed :
      (client : ClientId) (pane : PaneId) (b : Broker Parser)
      → Routed b
      → Routed (release_pane client pane b).0
  unfolding left
  release_pane-Routed client pane b r =
      release_pane_cases (λ x. Routed x.0) client pane b (λ e. r)
        (λ route e last. set_route-Routed pane _ b (emptied-IsRoute (left client route) last) r)
        (λ route e others holder.
          set_route_repairs pane _ _
            (surrendered-IsRoute _ (left_claimed client route others (r pane route e)))
            (SameLinks-RoutedBut pane (release_screen-SameLinks pane _)
              (set_route-RoutedBut pane (left client route) b (λ p route' d. r p route'))))
        (λ route e others observer. SameLinks-Routed (release_screen-SameLinks pane _) (
          set_route-Routed pane _ b (left-IsRoute client route others observer (r pane route e)) r))

  release_screen-clients :
      (pane : PaneId) (b : Broker Parser) → (release_screen_if_unwatched pane b).clients ≡ b.clients
  unfolding release_screen_if_unwatched
  release_screen-clients pane b = ground arith

  release_screen-next_client :
      (pane : PaneId) (b : Broker Parser)
      → (release_screen_if_unwatched pane b).next_client ≡ b.next_client
  unfolding release_screen_if_unwatched
  release_screen-next_client pane b = ground arith

  -- The clients' sessions are not touched.
  pub release_pane-clients :
      (client : ClientId) (pane : PaneId) (b : Broker Parser)
      → (release_pane client pane b).0.clients ≡ b.clients
  unfolding set_route
  release_pane-clients client pane b =
      release_pane_cases (λ x. x.0.clients ≡ b.clients) client pane b (λ e. refl)
        (λ route e last. refl) (λ route e others holder. release_screen-clients pane _)
        (λ route e others observer. release_screen-clients pane _)

  pub release_pane-next_client :
      (client : ClientId) (pane : PaneId) (b : Broker Parser)
      → (release_pane client pane b).0.next_client ≡ b.next_client
  unfolding set_route
  release_pane-next_client client pane b =
      release_pane_cases (λ x. x.0.next_client ≡ b.next_client) client pane b (λ e. refl)
        (λ route e last. refl) (λ route e others holder. release_screen-next_client pane _)
        (λ route e others observer. release_screen-next_client pane _)
