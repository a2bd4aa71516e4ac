-- ===== src/Broker/Takeover.antt =====
-- src/daemon/broker.rs: who is told what when a lease changes hands, and how a client comes to hold
-- one.
use super_herdr.Common.{
  ℕ, ◌≡◌, ◌≢◌, refl, ap, ◌∙◌, Bool, true, false, Option, none, some, List, [], ◌∷◌, ◌++◌, inl,
  arith,
}
use super_herdr.Common.Lists.{any, any-append, Has, Has-append_left, Has-append_right}
use super_herdr.Common.Order.{nat_ord}
use super_herdr.Common.Maps.{lookup, lookup-insert}
use super_herdr.Model.{PaneId, id_ord}
use super_herdr.Payloads.{TerminalAccess, observe, control}
use super_herdr.Protocol.{PaneRepresentation}
use super_herdr.Broker.State.{ClientId, Effect, PaneSubscription, Route, Client, Broker}
use super_herdr.Broker.Leases.{
  lease, is_holder, holds_control, set_route, resized, resize_effects, join, join_effects, grant,
  replay, subscribe_pane, fresh_subscription,
}
use super_herdr.Broker.Control.{taken, taken_effects, downgraded, take_route, take_control}
use super_herdr.Broker.Links.{replay-SameLinks}
use super_herdr.Broker.Takers.{enrolled}
use super_herdr.Broker.Grants.{holds_control-set_route, SameLinks-holds_control}

-- What a deliberate takeover from `previous` comes to.
pub record Handover {Parser : Type 0} (client previous : ClientId) (pane : PaneId)
    (r : Broker Parser × List Effect) : Type 0 where
  pub holds : holds_control r.0 client pane ≡ true
  pub lost : holds_control r.0 previous pane ≡ false
  pub told : Has (lease pane observe previous) r.1
  pub granted : Has (lease pane control client) r.1

module _ (client previous : ClientId) (pane : PaneId) where
  taken_effects-told :
      (sub : PaneSubscription) (route : Route)
      → route.control ≡ some previous
      → Has (lease pane observe previous) (taken_effects client pane sub route)
  unfolding taken_effects
  taken_effects-told sub route e =
      Has-append_right _ (resize_effects pane sub.cols sub.rows route) _ (
        Has-append_right _ _ _
          (Has-append_left _ (downgraded pane route.control) _ (rw e (inl refl))))

  taken_effects-granted :
      (sub : PaneSubscription) (route : Route)
      → Has (lease pane control client) (taken_effects client pane sub route)
  unfolding taken_effects
  taken_effects-granted sub route =
      Has-append_right _ (resize_effects pane sub.cols sub.rows route) _
        (Has-append_right _ _ _ (Has-append_right _ (downgraded pane route.control) _ (inl refl)))

-- A subscriber that takes control of a pane that another client holds has the lease afterwards,
-- the other has not, and both are told.
pub take_control-Handover :
    {Parser : Type 0} (client previous : ClientId) (pane : PaneId) (b : Broker Parser)
    (session : Client) (sub : PaneSubscription) (route : Route)
    → lookup client b.clients ≡ some session
    → lookup pane session.panes ≡ some sub
    → lookup pane b.routes ≡ some route
    → route.control ≡ some previous
    → previous ≢ client
    → Handover client previous pane (take_control client pane false b)
unfolding take_control take_route taken
take_control-Handover client previous pane b session sub route e f g held d =
    rw (e, take_control, f, g)
      (rw (other, take_route)
        (record {
          holds =
              ground (arith, holds_control-set_route pane (taken client sub route) b client pane);
          lost =
              ground (arith, holds_control-set_route pane (taken client sub route) b previous pane);
          told = taken_effects-told client previous pane sub route held;
          granted = taken_effects-granted client previous pane sub route;
        }))
  where
    other : is_holder client route.control ≡ false
    other = rw held (ground arith)

-- The access of the stream behind a pane's route.
abbrev pub stream : {Parser : Type 0} → Broker Parser → PaneId → Option TerminalAccess
stream b pane = elim (lookup pane b.routes) [ none ↦ none | some route ↦ some route.access ]

abbrev pub opens : Effect → Bool
opens (Effect.open_route pane access cols rows) = true
opens _ = false

-- What a subscription asking for control comes to on a route that was opened to observe and that
-- nobody controls.
pub record Promotion {Parser : Type 0} (client : ClientId) (pane : PaneId)
    (r : Broker Parser × List Effect) : Type 0 where
  pub holds : holds_control r.0 client pane ≡ true
  pub observes : stream r.0 pane ≡ some observe
  pub reopens : any opens r.1 ≡ false

module _ (client : ClientId) (pane : PaneId) (cols rows : ℕ) (route : Route) where
  joined_control :
      route.control ≡ none → (join client control cols rows route).0.control ≡ some client
  unfolding join resized
  joined_control free = rw (free, join) refl

  joined_access : route.access ≡ observe → (join client control cols rows route).0.access ≡ observe
  unfolding join resized
  joined_access e = ground (arith, e)

  no_open_in_join : any opens (join_effects pane control cols rows route) ≡ false
  unfolding join_effects resize_effects
  no_open_in_join = ground arith

no_open_in_replay :
    {Parser : Type 0} (client : ClientId) (pane : PaneId) (representation : PaneRepresentation)
    (b : Broker Parser)
    → any opens (replay client pane representation b).1 ≡ false
unfolding replay
no_open_in_replay client pane PaneRepresentation.frames b = refl
no_open_in_replay client pane PaneRepresentation.screen b = ground arith

-- The stream behind a route that is put in.
stream-set_route :
    {Parser : Type 0} (pane : PaneId) (route : Route) (b b' : Broker Parser)
    → b'.routes ≡ (set_route pane route b).routes
    → stream b' pane ≡ some route.access
unfolding set_route
stream-set_route pane route b b' e = rw e (ground (arith, lookup-insert pane route b.routes pane))

-- A client that subscribes asking for control, to a pane whose route was opened to observe and is
-- free, is given the lease; the route still only observes, and nothing asks for another.
pub subscribe_pane-Promotion :
    {Parser : Type 0} (client : ClientId) (pane : PaneId) (cols rows : ℕ)
    (representation : PaneRepresentation) (b : Broker Parser) (session : Client) (route : Route)
    → lookup client b.clients ≡ some session
    → lookup pane b.routes ≡ some route
    → route.control ≡ none
    → route.access ≡ observe
    → Promotion client pane (subscribe_pane client pane control cols rows representation b)
unfolding subscribe_pane grant set_route
subscribe_pane-Promotion client pane cols rows representation b session route e g free watching =
    let b1 = enrolled client session pane (fresh_subscription control cols rows representation) b in
    let joined = (join client control cols rows route).0 in
    let b2 = set_route pane joined b1 in
    let s = replay-SameLinks client pane representation b2 in
    rw (e, subscribe_pane, g, grant)
      (record {
        holds =
            SameLinks-holds_control s client pane
            ∙ ground (
              arith,
              holds_control-set_route pane joined b1 client pane,
              joined_control client pane cols rows route free,
            );
        observes =
            stream-set_route pane joined b1 (replay client pane representation b2).0 s.routes
            ∙ ap (λ (a : TerminalAccess). some a)
                (joined_access client pane cols rows route watching);
        reopens = ground (
          arith,
          any-append opens (join_effects pane control cols rows route) (
              (replay client pane representation b2).1
              ++ (lease pane (join client control cols rows route).1 client ∷ [])),
          any-append opens (replay client pane representation b2).1
              (lease pane (join client control cols rows route).1 client ∷ []),
          no_open_in_join client pane cols rows route,
          no_open_in_replay client pane representation b2,
        );
      })
