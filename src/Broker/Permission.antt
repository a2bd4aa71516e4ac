-- ===== src/Broker/Permission.antt =====
-- src/daemon/broker.rs: what `handle` asks for is permitted, message by message.
use super_herdr.Common.{ℕ, ◌≡◌, sym, ◌∙◌, some, [], ◌∷◌, ◌++◌, inl, inr, arith}
use super_herdr.Common.Tests.{Option-cases, if_rule}
use super_herdr.Common.Lists.{All, All-append}
use super_herdr.Common.Order.{nat_ord}
use super_herdr.Common.Maps.{lookup}
use super_herdr.Model.{PaneId, id_ord}
use super_herdr.Payloads.{TerminalAccess}
use super_herdr.Protocol.{ClientMessage, PaneRepresentation}
use super_herdr.Broker.State.{ClientId, Route, Client, Broker}
use super_herdr.Broker.Leases.{
  Reply, is_holder, lease, holds_control, join, grant, replay, subscribe_pane, fresh_subscription,
}
use super_herdr.Broker.Control.{unsubscribe_pane}
use super_herdr.Broker.Screens.{ack_pane_screen}
use super_herdr.Broker.Requests.{greet, subscribe_state, set_notifications, subscribe_agent_cards}
use super_herdr.Broker.Handle.{serve, handle}
use super_herdr.Broker.Authority.{Permitted, leased-Permitted}
use super_herdr.Broker.Links.{replay-SameLinks}
use super_herdr.Broker.Takers.{enrolled}
use super_herdr.Broker.Grants.{
  holds_control-set_route, SameLinks-holds_control, greet-Permitted, pane_resize-Permitted,
  replay-Permitted, join_effects-Permitted, take_control-Permitted, unsubscribe_pane-Permitted,
  ack_pane_screen-Permitted,
}

module _ {Parser : Type 0} where
  holds_control-grant :
      (c : ClientId) (pane : PaneId) (access : TerminalAccess) (cols rows : ℕ) (b : Broker Parser)
      (route : Route)
      → lookup pane b.routes ≡ some route
      → holds_control (grant c pane access cols rows b).0 c pane
        ≡ is_holder c (join c access cols rows route).0.control
  unfolding grant
  holds_control-grant c pane access cols rows b route e =
      rw (e, grant)
        (ground (arith, holds_control-set_route pane (join c access cols rows route).0 b c pane))

  grant-Permitted :
      (b b' : Broker Parser) (c : ClientId) (pane : PaneId) (access : TerminalAccess)
      (cols rows : ℕ) (b1 : Broker Parser)
      → (holds_control (grant c pane access cols rows b1).0 c pane ≡ holds_control b' c pane)
      → All (Permitted b b' c) (grant c pane access cols rows b1).2
  unfolding grant
  grant-Permitted b b' c pane access cols rows b1 same =
      elim (Option-cases (lookup pane b1.routes)) [
        | inl e ↦ rw (e, grant) (tt, tt)
        | inr (route, e) ↦
            rw (e, grant)
              (join_effects-Permitted b b' c pane access cols rows route
                λ h. sym same ∙ (holds_control-grant c pane access cols rows b1 route e ∙ h))
      ]

  subscribe_pane-Permitted :
      (c : ClientId) (pane : PaneId) (access : TerminalAccess) (cols rows : ℕ)
      (representation : PaneRepresentation) (b : Broker Parser)
      → All
          (Permitted b (subscribe_pane c pane access cols rows representation b).0 c)
          (subscribe_pane c pane access cols rows representation b).1
  unfolding subscribe_pane
  subscribe_pane-Permitted c pane access cols rows representation b =
      elim (Option-cases (lookup c b.clients)) [
        | inl e ↦ rw (e, subscribe_pane) tt
        | inr (session, e) ↦ rw (e, subscribe_pane) (granted session)
      ]
    where
      granted :
          (session : Client)
          → let b1 =
              enrolled c session pane (fresh_subscription access cols rows representation) b in
            let (b2, access', effects) = grant c pane access cols rows b1 in
            let (b3, shown) = replay c pane representation b2 in
            All (Permitted b b3 c) (effects ++ (shown ++ (lease pane access' c ∷ [])))
      granted session =
          let b1 = enrolled c session pane (fresh_subscription access cols rows representation) b in
          let b2 = (grant c pane access cols rows b1).0 in
          let b3 = (replay c pane representation b2).0 in
          All-append (Permitted b b3 c) _ _
            (grant-Permitted b b3 c pane access cols rows b1
              (sym (SameLinks-holds_control (replay-SameLinks c pane representation b2) c pane)))
            (All-append (Permitted b b3 c) _ _ (replay-Permitted b b3 c pane representation b2)
              (tt, tt))

  serve-Permitted :
      (c : ClientId) (message : ClientMessage) (b : Broker Parser)
      → All (Permitted b (serve c message b).0 c) (serve c message b).1
  unfolding serve subscribe_state set_notifications subscribe_agent_cards
  serve-Permitted c (ClientMessage.hello protocol name) b = (tt, (tt, tt))
  serve-Permitted c ClientMessage.subscribe_state b = (tt, (tt, tt))
  serve-Permitted c ClientMessage.subscribe_notifications b = tt
  serve-Permitted c ClientMessage.unsubscribe_notifications b = tt
  serve-Permitted c ClientMessage.subscribe_agent_cards b = ground arith
  serve-Permitted c (ClientMessage.subscribe_pane pane access cols rows representation) b =
      subscribe_pane-Permitted c pane access cols rows representation b
  serve-Permitted c (ClientMessage.ack_pane_screen pane sequence) b =
      ack_pane_screen-Permitted b (ack_pane_screen c pane sequence b).0 c pane sequence
  serve-Permitted c (ClientMessage.unsubscribe_pane pane) b =
      unsubscribe_pane-Permitted b (unsubscribe_pane c pane b).0 c pane
  serve-Permitted c (ClientMessage.take_pane_control pane only_if_free) b =
      take_control-Permitted c pane only_if_free b
  serve-Permitted c (ClientMessage.pane_resize pane cols rows) b =
      pane_resize-Permitted c pane cols rows b
  serve-Permitted c message b = leased-Permitted b b c message

  -- A message of a client makes the daemon type into a pane, scroll it, paste, begin or resume an upload
  -- to it, or begin a download from it or a transfer between two only if the client held the lease of
  -- the pane, or of both, before the message, and resize it only if it holds the lease afterwards. Of
  -- the messages that carry on an upload or a download, and of other effects, it says nothing.
  pub handle-Permitted :
      (c : ClientId) (message : ClientMessage) (b : Broker Parser)
      → All (Permitted b (handle c message b).0 c) (handle c message b).1
  unfolding handle
  handle-Permitted c message b = elim (Option-cases (lookup c b.clients)) [
    | inl e ↦ rw (e, handle) tt
    | inr (session, e) ↦
        rw (e, handle)
          (if_rule (λ (r : Reply Parser). All (Permitted b r.0 c) r.1) session.greeted
            (serve-Permitted c message b) (greet-Permitted b (greet c message b).0 c message))
  ]
