-- ===== src/Broker/Tenure.antt =====
-- src/daemon/broker.rs: a control lease stays with its holder until somebody takes it deliberately.
use super_herdr.Common.{ℕ, ◌≡◌, ◌≢◌, ◌∙◌, Bool, true, false, none, some, inl, inr, arith}
use super_herdr.Common.Tests.{◌==◌, is_some, Option-cases, if_rule}
use super_herdr.Common.Order.{nat_ord}
use super_herdr.Common.Maps.{lookup, is_empty, lookup-adjust, has-remove, has_of_empty}
use super_herdr.Model.{PaneId, id_ord}
use super_herdr.Payloads.{TerminalAccess}
use super_herdr.Protocol.{ClientMessage, PaneRepresentation, protocol_version}
use super_herdr.Broker.State.{ClientId, PaneSubscription, Route, Client, Broker}
use super_herdr.Broker.Leases.{
  Reply, is_holder, subscription, adjust_client, holds_control, set_route, join, opened, resized,
  grant, subscribe_pane, fresh_subscription,
}
use super_herdr.Broker.Control.{
  left, surrendered, taken, take_control, release_pane, unsubscribe_pane,
  release_screen_if_unwatched,
}
use super_herdr.Broker.Requests.{
  pane_resize, greet, subscribe_state, set_notifications, subscribe_agent_cards,
}
use super_herdr.Broker.Handle.{serve, handle}
use super_herdr.Broker.Invariant.{WellFormed}
use super_herdr.Broker.Links.{replay-SameLinks, ack_pane_screen-SameLinks, release_screen-SameLinks}
use super_herdr.Broker.Routes.{Routed, release_pane_cases}
use super_herdr.Broker.Takers.{enrolled, take_control_cases}
use super_herdr.Broker.Grants.{holds_control-set_route, SameLinks-holds_control}

-- A message that takes a lease whoever holds it.
abbrev pub is_takeover : ClientMessage → Bool
is_takeover (ClientMessage.take_pane_control pane false) = true
is_takeover _ = false

module _ {Parser : Type 0} (h c : ClientId) (p : PaneId) where
  -- `h` keeps the lease of `p` from `b` to `b'`.
  abbrev Keeps : Broker Parser → Broker Parser → Type 0
  Keeps b b' = holds_control b h p ≡ true → holds_control b' h p ≡ true

  grant-Keeps :
      (pane : PaneId) (access : TerminalAccess) (cols rows : ℕ) (b : Broker Parser)
      → Keeps b (grant c pane access cols rows b).0
  unfolding grant holds_control join
  grant-Keeps pane access cols rows b k = elim (Option-cases (lookup pane b.routes)) [
    | inl e ↦
        rw (e, grant)
          (ground (arith, holds_control-set_route pane (opened c access cols rows) b h p))
    | inr (route, e) ↦
        rw (e, grant)
          (ground (arith, holds_control-set_route pane (join c access cols rows route).0 b h p))
  ]

  enrolled-Keeps :
      (session : Client) (pane : PaneId) (sub : PaneSubscription) (b : Broker Parser)
      → Keeps b (enrolled c session pane sub b)
  unfolding holds_control
  enrolled-Keeps session pane sub b k = k

  subscribe_pane-Keeps :
      (pane : PaneId) (access : TerminalAccess) (cols rows : ℕ)
      (representation : PaneRepresentation) (b : Broker Parser)
      → Keeps b (subscribe_pane c pane access cols rows representation b).0
  unfolding subscribe_pane
  subscribe_pane-Keeps pane access cols rows representation b k =
      elim (Option-cases (lookup c b.clients)) [
        | inl e ↦ rw (e, subscribe_pane) k
        | inr (session, e) ↦
            rw (e, subscribe_pane)
              (SameLinks-holds_control (replay-SameLinks c pane representation _) h p
                ∙ grant-Keeps pane access cols rows
                    (enrolled c session pane (fresh_subscription access cols rows representation) b)
                    (enrolled-Keeps session pane
                      (fresh_subscription access cols rows representation) b k))
      ]

  take_control-Keeps : (pane : PaneId) (b : Broker Parser) → Keeps b (take_control c pane true b).0
  unfolding holds_control
  take_control-Keeps pane b k =
      take_control_cases (λ r. holds_control r.0 h p ≡ true) c pane true b k (λ reason. k) k
        (λ session sub route e f g other free.
          ground (arith, holds_control-set_route pane (taken c sub route) b h p))

  -- The last subscriber leaves, and it was not the holder.
  emptied-Keeps :
      (pane : PaneId) (route : Route) (b : Broker Parser)
      → c ≢ h
      → Routed b
      → lookup pane b.routes ≡ some route
      → is_empty (left c route).subscribers ≡ true
      → Keeps b (set_route pane (record (left c route) { unclaimed = true; control = none }) b)
  unfolding left holds_control
  emptied-Keeps pane route b d r e last k = ground (
    arith,
    holds_control-set_route pane (record (left c route) { unclaimed = true; control = none }) b h p,
    has-remove c route.subscribers h,
    has_of_empty h (left c route).subscribers,
    (r pane route e).held h,
  )

  surrendered-Keeps :
      (pane : PaneId) (route : Route) (b : Broker Parser)
      → c ≢ h
      → lookup pane b.routes ≡ some route
      → is_holder c route.control ≡ true
      → Keeps b (
          set_route pane
            (surrendered (left c route))
            (release_screen_if_unwatched pane (set_route pane (left c route) b)))
  unfolding left holds_control surrendered
  surrendered-Keeps pane route b d e holder k =
      let b1 = set_route pane (left c route) b in
      ground (
        arith,
        holds_control-set_route pane (surrendered (left c route))
            (release_screen_if_unwatched pane b1) h p,
        SameLinks-holds_control (release_screen-SameLinks pane b1) h p,
        holds_control-set_route pane (left c route) b h p,
      )

  left-Keeps :
      (pane : PaneId) (route : Route) (b : Broker Parser)
      → lookup pane b.routes ≡ some route
      → Keeps b (release_screen_if_unwatched pane (set_route pane (left c route) b))
  unfolding left holds_control
  left-Keeps pane route b e k =
      let b1 = set_route pane (left c route) b in
      ground (
        arith,
        SameLinks-holds_control (release_screen-SameLinks pane b1) h p,
        holds_control-set_route pane (left c route) b h p,
      )

  release_pane-Keeps :
      (pane : PaneId) (b : Broker Parser) → c ≢ h → Routed b → Keeps b (release_pane c pane b).0
  release_pane-Keeps pane b d r k =
      release_pane_cases (λ x. holds_control x.0 h p ≡ true) c pane b (λ e. k)
        (λ route e last. emptied-Keeps pane route b d r e last k)
        (λ route e others holder. surrendered-Keeps pane route b d e holder k)
        (λ route e others observer. left-Keeps pane route b e k)

  unsubscribe_pane-Keeps :
      (pane : PaneId) (b : Broker Parser) → c ≢ h → Routed b → Keeps b (unsubscribe_pane c pane b).0
  unfolding unsubscribe_pane adjust_client holds_control
  unsubscribe_pane-Keeps pane b d r k =
      if_rule (λ (x : Reply Parser). holds_control x.0 h p ≡ true) (is_some (subscription b c pane))
        (release_pane-Keeps pane _ d (λ q route e. r q route e) k) k

  pane_resize-Keeps :
      (pane : PaneId) (cols rows : ℕ) (b : Broker Parser)
      → Keeps b (pane_resize c pane cols rows b).0
  unfolding pane_resize holds_control resized
  pane_resize-Keeps pane cols rows b k =
      ground (arith, lookup-adjust pane (resized cols rows) b.routes p)

  greet-Keeps : (message : ClientMessage) (b : Broker Parser) → Keeps b (greet c message b).0
  unfolding greet holds_control adjust_client
  greet-Keeps (ClientMessage.hello protocol name) b k =
      if_rule (λ (x : Reply Parser). holds_control x.0 h p ≡ true) (protocol == protocol_version) k
        k
  greet-Keeps _ b k = k

  serve-Keeps :
      (message : ClientMessage) (b : Broker Parser)
      → c ≢ h
      → Routed b
      → is_takeover message ≡ false
      → Keeps b (serve c message b).0
  unfolding serve subscribe_state set_notifications subscribe_agent_cards adjust_client
      holds_control
  serve-Keeps ClientMessage.subscribe_state b d r f k = k
  serve-Keeps ClientMessage.subscribe_notifications b d r f k = k
  serve-Keeps ClientMessage.unsubscribe_notifications b d r f k = k
  serve-Keeps ClientMessage.subscribe_agent_cards b d r f k = k
  serve-Keeps (ClientMessage.subscribe_pane pane access cols rows representation) b d r f k =
      subscribe_pane-Keeps pane access cols rows representation b k
  serve-Keeps (ClientMessage.ack_pane_screen pane sequence) b d r f k =
      SameLinks-holds_control (ack_pane_screen-SameLinks c pane sequence b) h p ∙ k
  serve-Keeps (ClientMessage.unsubscribe_pane pane) b d r f k = unsubscribe_pane-Keeps pane b d r k
  serve-Keeps (ClientMessage.take_pane_control pane true) b d r f k = take_control-Keeps pane b k
  serve-Keeps (ClientMessage.take_pane_control pane false) b d r f k = cc
  serve-Keeps (ClientMessage.pane_resize pane cols rows) b d r f k =
      pane_resize-Keeps pane cols rows b k
  serve-Keeps _ b d r f k = k

-- In a well-formed broker, a client that holds the lease of a pane still holds it after any message
-- of another client that is not a `pane.take_control` without `only_if_free`.
pub handle-Keeps :
    {Parser : Type 0} (h c : ClientId) (p : PaneId) (message : ClientMessage) (b : Broker Parser)
    → WellFormed b
    → c ≢ h
    → is_takeover message ≡ false
    → holds_control b h p ≡ true
    → holds_control (handle c message b).0 h p ≡ true
unfolding handle
handle-Keeps {Parser} h c p message b w d f k = elim (Option-cases (lookup c b.clients)) [
  | inl e ↦ rw (e, handle) k
  | inr (session, e) ↦
      rw (e, handle)
        (if_rule (λ (x : Reply Parser). holds_control x.0 h p ≡ true) session.greeted
          (serve-Keeps h c p message b d w.routed f k) (greet-Keeps h c p message b k))
]
