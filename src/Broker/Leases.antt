-- ===== src/Broker/Leases.antt =====
-- src/daemon/broker.rs: who is connected, who watches a pane and who holds its control lease.
use super_herdr.Common.{ℕ, Bool, true, false, not, ◌&&◌, Option, none, some, List, [], ◌∷◌, ◌++◌}
use super_herdr.Common.Tests.{◌==◌, if◌then◌else◌, next_u64, is_some}
use super_herdr.Common.Order.{Text, text, nat_ord}
use super_herdr.Common.Maps.{lookup, insert, adjust, add, singleton}
use super_herdr.Model.{PaneId, display, id_ord}
use super_herdr.Payloads.{TerminalAccess, observe, control}
use super_herdr.Protocol.{PaneRepresentation, frames, screen, ServerMessage}
use super_herdr.Broker.State.{ClientId, Effect, PaneSubscription, Route, Client, new_client, Broker}

-- What an operation answers: the broker afterwards, and the effects in their order.
abbrev pub Reply : Type 0 → Type 0
Reply Parser = Broker Parser × List Effect

-- Whether `client` is the holder.
abbrev pub is_holder : ClientId → Option ClientId → Bool
is_holder client none = false
is_holder client (some holder) = holder == client

-- `PartialEq` on accesses and representations.
abbrev pub is_control : TerminalAccess → Bool
is_control observe = false
is_control control = true

abbrev pub is_screen : PaneRepresentation → Bool
is_screen frames = false
is_screen screen = true

-- A `pane.lease` message to one client.
abbrev pub lease : PaneId → TerminalAccess → ClientId → Effect
lease pane access client = Effect.send client (ServerMessage.pane_lease pane access)

-- An `error` message to one client, about no request.
abbrev pub refusal : ClientId → Text → Effect
refusal client reason = Effect.send client (ServerMessage.error none reason)

module _ {Parser : Type 0} where
  unfoldable pub connect : Broker Parser → Broker Parser × ClientId
  connect b = (
    record b {
      clients = insert b.next_client new_client b.clients;
      next_client = next_u64 b.next_client;
    },
    b.next_client,
  )

  -- The subscription that one client has to one pane.
  unfoldable pub subscription : Broker Parser → ClientId → PaneId → Option PaneSubscription
  subscription b client pane = elim (lookup client b.clients) [
    | none ↦ none
    | some session ↦ lookup pane session.panes
  ]

  -- The rewriting of one client's session, as through `get_mut`.
  unfoldable pub adjust_client : ClientId → (Client → Client) → Broker Parser → Broker Parser
  adjust_client client f b = record b { clients = adjust client f b.clients }

  unfoldable pub adjust_subscription :
      ClientId → PaneId → (PaneSubscription → PaneSubscription) → Broker Parser → Broker Parser
  unfolding adjust_client
  adjust_subscription client pane f =
      adjust_client client (λ session. record session { panes = adjust pane f session.panes })

  unfoldable pub set_route : PaneId → Route → Broker Parser → Broker Parser
  set_route pane route b = record b { routes = insert pane route b.routes }

  unfoldable pub representation_of : Broker Parser → PaneId → ClientId → PaneRepresentation
  unfolding subscription
  representation_of b pane client = elim (subscription b client pane) [
    | none ↦ frames
    | some sub ↦ sub.representation
  ]

  unfoldable pub holds_control : Broker Parser → ClientId → PaneId → Bool
  holds_control b client pane = elim (lookup pane b.routes) [
    | none ↦ false
    | some route ↦ is_holder client route.control
  ]

  -- The effects of a request that needs the lease of `pane`.
  unfoldable pub guarded : Broker Parser → ClientId → PaneId → List Effect → List Effect
  unfolding holds_control
  guarded b client pane effects =
      if holds_control b client pane
      then effects
      else refusal client
          (text "this connection does not hold the control lease for " ++ display pane)
        ∷ []

-- `resize_for_control`.
unfoldable pub resized : ℕ → ℕ → Route → Route
resized cols rows route = record route { cols = cols; rows = rows }

unfoldable pub resize_effects : PaneId → ℕ → ℕ → Route → List Effect
resize_effects pane cols rows route =
    if (route.cols == cols) && (route.rows == rows)
    then []
    else Effect.route_resize pane cols rows ∷ []

-- The arm of `subscribe_pane` for a pane that has a route: the route afterwards, and the access
-- that is granted.
unfoldable pub join : ClientId → TerminalAccess → ℕ → ℕ → Route → Route × TerminalAccess
unfolding resized
join client access cols rows route =
    let joined = record route { unclaimed = false; subscribers = add client route.subscribers } in
    if is_control access && not (is_some route.control)
    then (resized cols rows (record joined { control = some client }), control)
    else (joined, if is_holder client route.control then control else observe)

unfoldable pub join_effects : PaneId → TerminalAccess → ℕ → ℕ → Route → List Effect
unfolding resize_effects
join_effects pane access cols rows route =
    if is_control access && not (is_some route.control)
    then resize_effects pane cols rows route
    else []

-- The route of `subscribe_pane` for a pane that has none.
unfoldable pub opened : ClientId → TerminalAccess → ℕ → ℕ → Route
opened client access cols rows = record {
  access = access;
  cols = cols;
  rows = rows;
  control = if is_control access then some client else none;
  subscribers = singleton client;
  unclaimed = false;
}

-- The subscription that `subscribe_pane` puts in the place of any earlier one.
abbrev pub fresh_subscription : TerminalAccess → ℕ → ℕ → PaneRepresentation → PaneSubscription
fresh_subscription access cols rows representation = record {
  requested = access;
  cols = cols;
  rows = rows;
  representation = representation;
  sent = none;
  outstanding = [];
}

module _ {Parser : Type 0} where
  -- A screen subscriber is sent the screen that is already rendered.
  unfoldable pub replay : ClientId → PaneId → PaneRepresentation → Broker Parser → Reply Parser
  unfolding adjust_subscription
  replay client pane frames b = (b, [])
  replay client pane screen b = elim (lookup pane b.screens) [
    | none ↦ (b, [])
    | some state ↦ (
      adjust_subscription client pane
          (λ sub. record sub {
            sent = some state.last.sequence;
            outstanding = sub.outstanding ++ (state.last.sequence ∷ []);
          })
          b,
      Effect.send client (ServerMessage.pane_screen pane state.last) ∷ [],
    )
  ]

  -- The grant in `subscribe_pane`: the broker, the access granted, and the effects.
  unfoldable pub grant :
      ClientId
      → PaneId
      → TerminalAccess
      → ℕ
      → ℕ
      → Broker Parser
      → Broker Parser × TerminalAccess × List Effect
  unfolding join join_effects opened set_route
  grant client pane access cols rows b = elim (lookup pane b.routes) [
    | none ↦ (
      set_route pane (opened client access cols rows) b,
      access,
      Effect.open_route pane access cols rows ∷ [],
    )
    | some route ↦ (
      set_route pane (join client access cols rows route).0 b,
      (join client access cols rows route).1,
      join_effects pane access cols rows route,
    )
  ]

  unfoldable pub subscribe_pane :
      ClientId → PaneId → TerminalAccess → ℕ → ℕ → PaneRepresentation → Broker Parser → Reply Parser
  unfolding grant replay
  subscribe_pane client pane access cols rows representation b = elim (lookup client b.clients) [
    | none ↦ (b, [])
    | some session ↦
        let sub = fresh_subscription access cols rows representation in
        let b1 = record b {
          clients =
              insert client (record session { panes = insert pane sub session.panes }) b.clients;
        } in
        let (b2, granted, effects) = grant client pane access cols rows b1 in
        let (b3, shown) = replay client pane representation b2 in
        (b3, effects ++ (shown ++ (lease pane granted client ∷ [])))
  ]
