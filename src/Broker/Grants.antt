-- ===== src/Broker/Grants.antt =====
-- src/daemon/broker.rs: leases through single steps, and what those steps ask for.
use super_herdr.Common.{
  ℕ, ◌≡◌, refl, Bool, true, not, ◌&&◌, Option, none, some, inl, inr, ite, arith,
}
use super_herdr.Common.Tests.{◌==◌, is_some, Bool-cases, Option-cases, if_rule}
use super_herdr.Common.Lists.{any, All, All-append, All-map}
use super_herdr.Common.Order.{nat_ord}
use super_herdr.Common.Maps.{lookup, lookup-insert, lookup-adjust}
use super_herdr.Model.{PaneId, id_ord}
use super_herdr.Payloads.{TerminalAccess, observe}
use super_herdr.Protocol.{ClientMessage, PaneRepresentation, protocol_version}
use super_herdr.Broker.State.{ClientId, PaneSubscription, Route, Broker}
use super_herdr.Broker.Leases.{
  Reply, subscription, is_holder, is_control, lease, set_route, resized, resize_effects,
  holds_control, join, join_effects, replay,
}
use super_herdr.Broker.Control.{
  taken, taken_effects, downgraded, take_control, left, surrendered_effects, release_pane,
  unsubscribe_pane,
}
use super_herdr.Broker.Screens.{settled, ack_pane_screen}
use super_herdr.Broker.Requests.{pane_resize, greet}
use super_herdr.Broker.Authority.{Permitted}
use super_herdr.Broker.Links.{SameLinks}
use super_herdr.Broker.Routes.{release_pane_cases}
use super_herdr.Broker.Takers.{take_control_cases}

module _ {Parser : Type 0} where
  pub holds_control-set_route :
      (pane : PaneId) (route : Route) (b : Broker Parser) (c : ClientId) (p : PaneId)
      → holds_control (set_route pane route b) c p
        ≡ ite (id_ord.same pane p) (is_holder c route.control) (holds_control b c p)
  unfolding set_route holds_control
  holds_control-set_route pane route b c p = ground (arith, lookup-insert pane route b.routes p)

  pub SameLinks-holds_control :
      {b b' : Broker Parser} (s : SameLinks b b') (c : ClientId) (p : PaneId)
      → holds_control b' c p ≡ holds_control b c p
  unfolding holds_control
  SameLinks-holds_control {b} {b'} s c p = rw s.routes refl

  pub greet-Permitted :
      (b b' : Broker Parser) (c : ClientId) (message : ClientMessage)
      → All (Permitted b b' c) (greet c message b).1
  unfolding greet
  greet-Permitted b b' c (ClientMessage.hello protocol name) =
      if_rule (λ (r : Reply Parser). All (Permitted b b' c) r.1) (protocol == protocol_version)
        (tt, tt) (tt, (tt, tt))
  greet-Permitted b b' c _ = (tt, (tt, tt))

  pub pane_resize-Permitted :
      (c : ClientId) (pane : PaneId) (cols rows : ℕ) (b : Broker Parser)
      → All (Permitted b (pane_resize c pane cols rows b).0 c) (pane_resize c pane cols rows b).1
  unfolding pane_resize
  pane_resize-Permitted c pane cols rows b = elim (Bool-cases (holds_control b c pane)) [
    | inl holder ↦
        rw (holder, pane_resize)
          (ground (arith, holder, lookup-adjust pane (resized cols rows) b.routes pane), tt)
    | inr other ↦ rw (other, pane_resize) (tt, tt)
  ]

  pub resize_effects-Permitted :
      (b b' : Broker Parser) (c : ClientId) (pane : PaneId) (cols rows : ℕ) (route : Route)
      → holds_control b' c pane ≡ true
      → All (Permitted b b' c) (resize_effects pane cols rows route)
  unfolding resize_effects
  resize_effects-Permitted b b' c pane cols rows route h =
      if_rule (All (Permitted b b' c)) ((route.cols == cols) && (route.rows == rows)) tt (h, tt)

  pub replay-Permitted :
      (b b' : Broker Parser) (c : ClientId) (pane : PaneId) (representation : PaneRepresentation)
      (b1 : Broker Parser)
      → All (Permitted b b' c) (replay c pane representation b1).1
  unfolding replay
  replay-Permitted b b' c pane PaneRepresentation.frames b1 = tt
  replay-Permitted b b' c pane PaneRepresentation.screen b1 = ground arith

  -- Joining a route resizes it only where it hands out the lease.
  pub join_effects-Permitted :
      (b b' : Broker Parser) (c : ClientId) (pane : PaneId) (access : TerminalAccess)
      (cols rows : ℕ) (route : Route)
      → (is_holder c (join c access cols rows route).0.control ≡ true
          → holds_control b' c pane ≡ true)
      → All (Permitted b b' c) (join_effects pane access cols rows route)
  unfolding join_effects join
  join_effects-Permitted b b' c pane access cols rows route h =
      elim (Bool-cases (is_control access && not (is_some route.control))) [
        | inl free ↦
            rw (free, join_effects)
              (resize_effects-Permitted b b' c pane cols rows route
                (h (rw (free, join) (ground arith))))
        | inr other ↦ rw (other, join_effects) tt
      ]

  pub downgraded-Permitted :
      (b b' : Broker Parser) (c : ClientId) (pane : PaneId) (o : Option ClientId)
      → All (Permitted b b' c) (downgraded pane o)
  downgraded-Permitted b b' c pane none = tt
  downgraded-Permitted b b' c pane (some previous) = (tt, tt)

  pub take_control-Permitted :
      (c : ClientId) (pane : PaneId) (only_if_free : Bool) (b : Broker Parser)
      → All
          (Permitted b (take_control c pane only_if_free b).0 c)
          (take_control c pane only_if_free b).1
  unfolding taken taken_effects
  take_control-Permitted c pane only_if_free b =
      take_control_cases (λ r. All (Permitted b r.0 c) r.1) c pane only_if_free b tt
        (λ reason. (tt, tt)) (tt, tt)
        (λ session sub route e f g other free. taken_permitted sub route)
    where
      taken_permitted :
          (sub : PaneSubscription) (route : Route)
          → All
              (Permitted b (set_route pane (taken c sub route) b) c)
              (taken_effects c pane sub route)
      taken_permitted sub route =
          let b' = set_route pane (taken c sub route) b in
          All-append (Permitted b b' c) (resize_effects pane sub.cols sub.rows route) _
            (resize_effects-Permitted b b' c pane sub.cols sub.rows route
              (ground (arith, holds_control-set_route pane (taken c sub route) b c pane)))
            (All-append (Permitted b b' c) _ _
              (if_rule (All (Permitted b b' c)) (is_control route.access) tt (tt, (tt, tt)))
              (All-append (Permitted b b' c) (downgraded pane route.control) _
                (downgraded-Permitted b b' c pane route.control) (tt, tt)))

  pub release_pane-Permitted :
      (b b' : Broker Parser) (c : ClientId) (pane : PaneId) (b1 : Broker Parser)
      → All (Permitted b b' c) (release_pane c pane b1).1
  unfolding surrendered_effects left
  release_pane-Permitted b b' c pane b1 =
      release_pane_cases (λ r. All (Permitted b b' c) r.1) c pane b1 (λ e. tt)
        (λ route e last. (tt, tt))
        (λ route e others holder.
          All-append (Permitted b b' c) _ _
            (if_rule (All (Permitted b b' c)) (is_control route.access) (tt, (tt, tt)) tt)
            (All-map (Permitted b b' c) (lease pane observe) _ (λ client. tt)))
        (λ route e others observer. tt)

  pub unsubscribe_pane-Permitted :
      (b b' : Broker Parser) (c : ClientId) (pane : PaneId)
      → All (Permitted b b' c) (unsubscribe_pane c pane b).1
  unfolding unsubscribe_pane
  unsubscribe_pane-Permitted b b' c pane =
      if_rule (λ (r : Reply Parser). All (Permitted b b' c) r.1) (is_some (subscription b c pane))
        (release_pane-Permitted b b' c pane _) tt

  pub settled-Permitted :
      (b b' : Broker Parser) (c : ClientId) (pane : PaneId) (sequence : ℕ) (sub : PaneSubscription)
      → All (Permitted b b' c) (settled c pane sequence sub b).1
  unfolding settled
  settled-Permitted b b' c pane sequence sub = elim (Option-cases (lookup pane b.screens)) [
    | inl e ↦ rw (e, settled) tt
    | inr (state, e) ↦ rw (e, settled) (ground arith)
  ]

  pub ack_pane_screen-Permitted :
      (b b' : Broker Parser) (c : ClientId) (pane : PaneId) (sequence : ℕ)
      → All (Permitted b b' c) (ack_pane_screen c pane sequence b).1
  unfolding ack_pane_screen
  ack_pane_screen-Permitted b b' c pane sequence = elim (Option-cases (subscription b c pane)) [
    | inl e ↦ rw (e, ack_pane_screen) tt
    | inr (sub, e) ↦
        rw (e, ack_pane_screen)
          (if_rule (λ (r : Reply Parser). All (Permitted b b' c) r.1)
            (any (λ held. held == sequence) sub.outstanding)
            (settled-Permitted b b' c pane sequence sub) tt)
  ]
