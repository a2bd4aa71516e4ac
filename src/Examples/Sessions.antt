-- ===== src/Examples/Sessions.antt =====
-- The broker's theorems on those runs.
use super_herdr.Common.{◌≤◌, not, ◌&&◌}
use super_herdr.Common.Tests.{if◌then◌else◌}
use super_herdr.Common.Lists.{keep, length}
use super_herdr.Broker.Leases.{subscription, representation_of, is_screen}
use super_herdr.Broker.Federated.{pane_is_gone, federation_updated}
use super_herdr.Broker.Events.{pane_frame}
use super_herdr.Broker.Paced.{reachable-IsPaced}
use super_herdr.Broker.Vanished.{federation_updated_retires}
use super_herdr.Broker.Delivery.{is_frame_to, pane_frame_delivers}
use super_herdr.Common.{◌≡◌, refl, true, false, none, some, [], ◌∷◌, arith, ℕ_discrete}
use super_herdr.Common.Lists.{All}
use super_herdr.Common.Order.{text, nat_ord, key_same, list_same}
use super_herdr.Common.Maps.{has, lookup, insert, adjust}
use super_herdr.Model.{id_ord}
use super_herdr.Payloads.{observe, control}
use super_herdr.Protocol.{frames, screen, ClientMessage, ServerMessage}
use super_herdr.Broker.State.{PaneSubscription, Client, Route, Effect, new}
use super_herdr.Broker.Leases.{connect, holds_control, subscribe_pane, fresh_subscription}
use super_herdr.Broker.Control.{take_control, disconnect}
use super_herdr.Broker.Events.{close_if_unclaimed}
use super_herdr.Broker.Handle.{handle}
use super_herdr.Broker.Invariant.{WellFormed, subscribed}
use super_herdr.Broker.Authority.{Permitted}
use super_herdr.Broker.Permission.{handle-Permitted}
use super_herdr.Broker.Tenure.{handle-Keeps}
use super_herdr.Broker.Takeover.{
  Handover, Promotion, take_control-Handover, subscribe_pane-Promotion,
}
use super_herdr.Broker.Handshake.{Shut, handle-Shut}
use super_herdr.Broker.Departure.{disconnect_releases}
use super_herdr.Broker.Retirement.{close_if_unclaimed_watched}
use super_herdr.Broker.Reach.{Step, Reach, reachable-WellFormed}
use super_herdr.Examples.Runs.{tape, pane_one, fresh, greeting, connected, shared, observed, typing}

Reach-shared : Reach tape fresh shared
unfolding new connect handle lookup insert ℕ_discrete adjust subscribe_pane id_ord key_same
    list_same
Reach-shared =
    Reach.next
      (Reach.next
        (Reach.next
          (Reach.next
            (Reach.next (Reach.next Reach.here (Step.connects (omega arith)))
              (Step.receives 0 greeting))
            (Step.receives 0 (ClientMessage.subscribe_pane pane_one control 80 24 frames)))
          (Step.connects (omega arith)))
        (Step.receives 1 greeting))
      (Step.receives 1 (ClientMessage.subscribe_pane pane_one observe 80 24 screen))

reachable-WellFormed_example : WellFormed shared
unfolding new
reachable-WellFormed_example = reachable-WellFormed tape (text "0.1") [] [] Reach-shared

shared-WellFormed : WellFormed shared
unfolding new
shared-WellFormed = reachable-WellFormed tape (text "0.1") [] [] Reach-shared

holds_one : holds_control shared 0 pane_one ≡ true
unfolding holds_control new connect handle lookup insert ℕ_discrete adjust subscribe_pane id_ord
    key_same list_same
holds_one = refl

-- The observer types, which it may not.
handle-Permitted_example :
    All (Permitted shared (handle 1 typing shared).0 1) (handle 1 typing shared).1
handle-Permitted_example = handle-Permitted 1 typing shared

handle-Keeps_example :
    holds_control
      (handle 1 (ClientMessage.subscribe_pane pane_one control 90 30 frames) shared).0
      0
      pane_one
    ≡ true
handle-Keeps_example =
    handle-Keeps 0 1 pane_one (ClientMessage.subscribe_pane pane_one control 90 30 frames) shared
      shared-WellFormed (omega arith) refl holds_one

abbrev session_two : Client
session_two = record {
  greeted = true;
  state_subscribed = false;
  agent_cards_subscribed = false;
  notifications_subscribed = false;
  panes = (pane_one, fresh_subscription observe 80 24 screen) ∷ [];
}

abbrev shared_route : Route
shared_route = record {
  access = control;
  cols = 80;
  rows = 24;
  control = some 0;
  subscribers = (0, tt) ∷ (1, tt) ∷ [];
  unclaimed = false;
}

take_control-Handover_example : Handover 1 0 pane_one (take_control 1 pane_one false shared)
unfolding new connect handle lookup insert ℕ_discrete adjust subscribe_pane id_ord key_same
    list_same
take_control-Handover_example =
    take_control-Handover 1 0 pane_one shared session_two (fresh_subscription observe 80 24 screen)
      shared_route refl refl refl refl (omega arith)

abbrev session_one : Client
session_one = record session_two {
  panes = (pane_one, fresh_subscription observe 80 24 screen) ∷ [];
}

abbrev observed_route : Route
observed_route = record shared_route {
  access = observe;
  control = none;
  subscribers = (0, tt) ∷ [];
}

subscribe_pane-Promotion_example :
    Promotion 0 pane_one (subscribe_pane 0 pane_one control 80 24 frames observed)
unfolding new connect handle lookup insert ℕ_discrete adjust subscribe_pane id_ord key_same
    list_same
subscribe_pane-Promotion_example =
    subscribe_pane-Promotion 0 pane_one 80 24 frames observed session_one observed_route refl refl
      refl refl

handle-Shut_example : Shut 0 typing connected (handle 0 typing connected)
unfolding new connect handle lookup insert ℕ_discrete adjust subscribe_pane id_ord key_same
    list_same
handle-Shut_example =
    handle-Shut 0 typing connected (record session_two { greeted = false; panes = [] }) refl refl

disconnect_releases_example :
    (lookup 0 (disconnect 0 shared).0.clients ≡ none)
    × (subscribed (disconnect 0 shared).0 0 pane_one ≡ false)
    × (holds_control (disconnect 0 shared).0 0 pane_one ≡ false)
disconnect_releases_example = disconnect_releases 0 pane_one shared shared-WellFormed

close_if_unclaimed_watched_example : close_if_unclaimed pane_one shared ≡ (shared, [])
unfolding new connect handle lookup insert ℕ_discrete adjust subscribe_pane id_ord key_same
    list_same has
close_if_unclaimed_watched_example =
    close_if_unclaimed_watched 1 pane_one shared shared-WellFormed refl

abbrev marked_one : PaneSubscription
marked_one = fresh_subscription observe 80 24 screen

reachable-IsPaced_example : length marked_one.outstanding ≤ 4
unfolding subscription new connect handle lookup insert ℕ_discrete adjust subscribe_pane id_ord
    key_same list_same
reachable-IsPaced_example =
    reachable-IsPaced tape (text "0.1") [] [] 1 pane_one marked_one Reach-shared refl

-- The federation now knows no target, so the pane is gone.
federation_updated_retires_example :
    lookup pane_one (federation_updated (record { revision = 0; targets = [] }) shared).0.routes ≡ (
      if pane_is_gone (record { revision = 0; targets = [] }) pane_one
      then none
      else lookup pane_one shared.routes)
federation_updated_retires_example =
    federation_updated_retires (record { revision = 0; targets = [] }) shared pane_one

pane_frame_delivers_example :
    keep (is_frame_to 0) (pane_frame tape pane_one 1 80 24 true (104 ∷ []) shared).1 ≡ (
      if has 0 shared_route.subscribers && not (is_screen (representation_of shared pane_one 0))
      then Effect.send 0 (ServerMessage.pane_frame pane_one 1 80 24 true (104 ∷ [])) ∷ []
      else [])
unfolding new connect handle lookup insert ℕ_discrete adjust subscribe_pane id_ord key_same
    list_same
pane_frame_delivers_example =
    pane_frame_delivers 0 tape pane_one 1 80 24 true (104 ∷ []) shared shared_route refl
      ((ground arith, tt), (tt, tt))
