-- ===== src/Broker/Delivery.antt =====
-- src/daemon/broker.rs: who is sent a frame.
use super_herdr.Common.{
  ℕ, ◌≡◌, refl, ap, ◌∙◌, Bool, false, not, ◌&&◌, Option, some, List, [], ◌∷◌, ◌++◌, map, inl, inr,
  arith,
}
use super_herdr.Common.Tests.{if◌then◌else◌, ◌==◌, Bool-cases, Option-cases}
use super_herdr.Common.Lists.{any, keep, any-append}
use super_herdr.Common.Order.{nat_ord}
use super_herdr.Common.Maps.{Map, IsRising, has, keys, lookup, lookup-Above}
use super_herdr.Model.{PaneId, id_ord}
use super_herdr.Screen.Render.{Vt100}
use super_herdr.Protocol.{ServerMessage}
use super_herdr.Broker.State.{ClientId, Effect, Route, Rendered, Broker}
use super_herdr.Broker.Leases.{is_screen, representation_of, subscription}
use super_herdr.Broker.Screens.{update_for, is_skipped, render_one, render_all}
use super_herdr.Broker.Events.{screen_frame, render_for, pane_frame}

-- A raw frame to one client.
abbrev pub is_frame_to : ClientId → Effect → Bool
is_frame_to c
      (Effect.send client (ServerMessage.pane_frame pane sequence width height full bytes)) =
    client == c
is_frame_to c _ = false

keep_nothing : {A : Type 0} (t : A → Bool) (xs : List A) → any t xs ≡ false → keep t xs ≡ []
keep_nothing t [] e = refl
keep_nothing t (x ∷ xs) e = ground (arith, keep_nothing t xs)

keep-append :
    {A : Type 0} (t : A → Bool) (xs ys : List A) → keep t (xs ++ ys) ≡ keep t xs ++ keep t ys
keep-append t [] ys = refl
keep-append t (x ∷ xs) ys = ground (arith, keep-append t xs ys)

-- Of frames to the keys of a map that pass a test, one is to a client.
keep-frames :
    {V : Type 0} (c : ClientId) (message : ServerMessage) (t : ClientId → Bool) (m : Map ClientId V)
    → ((client : ClientId) → is_frame_to c (Effect.send client message) ≡ client == c)
    → IsRising m
    → keep (is_frame_to c) (map (λ client. Effect.send client message) (keep t (keys m)))
      ≡ (if has c m && t c then Effect.send c message ∷ [] else [])
unfolding has lookup
keep-frames c message t [] raw r = refl
keep-frames c message t ((client, v) ∷ m) raw r = ground (
  arith,
  raw client,
  keep-frames c message t m raw r.1,
  lookup-Above client m r.0,
  ap (λ i. lookup i m) {x = client} {y = c},
  ap t {x = client} {y = c},
)

no_frame_in_update :
    (c client : ClientId) (sent : Option ℕ) (pane : PaneId) (rendered : Rendered)
    → is_frame_to c (Effect.send client (update_for sent pane rendered)) ≡ false
unfolding update_for
no_frame_in_update c client sent pane rendered = ground arith

module _ {Parser : Type 0} (c : ClientId) where
  no_frame_in_render_one :
      (pane : PaneId) (rendered : Rendered) (client : ClientId) (b : Broker Parser)
      → any (is_frame_to c) (render_one pane rendered client b).1 ≡ false
  unfolding render_one
  no_frame_in_render_one pane rendered client b = elim (Option-cases (subscription b client pane)) [
    | inl e ↦ rw (e, render_one) refl
    | inr (sub, e) ↦ elim (Bool-cases (is_skipped rendered sub)) [
      | inl skip ↦ rw (e, render_one, skip) refl
      | inr go ↦
          rw (e, render_one, go)
            (ground (arith, no_frame_in_update c client sub.sent pane rendered))
    ]
  ]

  no_frame_in_render_all :
      (pane : PaneId) (rendered : Rendered) (clients : List ClientId) (b : Broker Parser)
      → any (is_frame_to c) (render_all pane rendered clients b).1 ≡ false
  unfolding render_all
  no_frame_in_render_all pane rendered [] b = refl
  no_frame_in_render_all pane rendered (client ∷ clients) b = ground (
    arith,
    any-append (is_frame_to c) (render_one pane rendered client b).1
        (render_all pane rendered clients (render_one pane rendered client b).0).1,
    no_frame_in_render_one pane rendered client b,
    no_frame_in_render_all pane rendered clients (render_one pane rendered client b).0,
  )

  no_frame_in_screen_frame :
      (vt : Vt100 Parser) (pane : PaneId) (width height : ℕ) (full : Bool) (bytes : List ℕ)
      (clients : List ClientId) (b : Broker Parser)
      → any (is_frame_to c) (screen_frame vt pane width height full bytes clients b).1 ≡ false
  unfolding screen_frame render_for
  no_frame_in_screen_frame vt pane width height full bytes [] b = refl
  no_frame_in_screen_frame vt pane width height full bytes (client ∷ clients) b =
      no_frame_in_render_all pane _ (client ∷ clients) _

  -- Where the subscribers of a pane's route are in their order, a frame of the pane is passed on to a
  -- client exactly once if the client is one of them and does not watch the pane as a rendered screen,
  -- with the pane, sequence, size, kind and bytes that came, and otherwise not at all.
  pub pane_frame_delivers :
      (vt : Vt100 Parser) (pane : PaneId) (sequence width height : ℕ) (full : Bool) (bytes : List ℕ)
      (b : Broker Parser) (route : Route)
      → lookup pane b.routes ≡ some route
      → IsRising route.subscribers
      → keep (is_frame_to c) (pane_frame vt pane sequence width height full bytes b).1 ≡ (
          if has c route.subscribers && not (is_screen (representation_of b pane c))
          then Effect.send c (ServerMessage.pane_frame pane sequence width height full bytes) ∷ []
          else [])
  unfolding pane_frame
  pane_frame_delivers vt pane sequence width height full bytes b route e rising =
      let message = ServerMessage.pane_frame pane sequence width height full bytes in
      let watching = λ (client : ClientId). is_screen (representation_of b pane client) in
      let plain = λ (client : ClientId). not (watching client) in
      let clients = keys route.subscribers in
      let shown = (screen_frame vt pane width height full bytes (keep watching clients) b).1 in
      let frames = map (λ (client : ClientId). Effect.send client message) (keep plain clients) in
      rw (e, pane_frame)
        (keep-append (is_frame_to c) frames shown
          ∙ ground (
            arith,
            keep-frames c message plain route.subscribers (λ client. refl) rising,
            keep_nothing (is_frame_to c) shown (
                no_frame_in_screen_frame vt pane width height full bytes (keep watching clients) b),
          ))
