-- ===== src/Broker/Handshake.antt =====
-- src/daemon/broker.rs: a connection before its `client.hello`.
use super_herdr.Common.{◌≡◌, ◌≢◌, refl, Bool, true, false, some, inl, inr, arith}
use super_herdr.Common.Tests.{◌==◌, Bool-cases}
use super_herdr.Common.Lists.{All, any}
use super_herdr.Common.Order.{Text, nat_ord}
use super_herdr.Common.Maps.{lookup, lookup-adjust}
use super_herdr.Protocol.{ClientMessage, protocol_version}
use super_herdr.Broker.State.{ClientId, Effect, Client, Broker}
use super_herdr.Broker.Leases.{Reply, adjust_client}
use super_herdr.Broker.Requests.{refuse, greet}
use super_herdr.Broker.Handle.{handle}

-- An effect that concerns one connection only: a message to it, or its end.
abbrev pub IsReplyTo : ClientId → Effect → Type 0
IsReplyTo c (Effect.send client message) = client ≡ c
IsReplyTo c (Effect.disconnect client reason) = client ≡ c
IsReplyTo c _ = ⊥

abbrev pub is_end : Effect → Bool
is_end (Effect.disconnect client reason) = true
is_end _ = false

-- The message that is accepted before the handshake.
abbrev pub is_greeting : ClientMessage → Bool
is_greeting (ClientMessage.hello protocol name) = protocol == protocol_version
is_greeting _ = false

-- What a message comes to before the handshake.
pub record Shut {Parser : Type 0} (c : ClientId) (message : ClientMessage) (b : Broker Parser)
    (r : Reply Parser) : Type 0 where
  pub routes : r.0.routes ≡ b.routes
  pub screens : r.0.screens ≡ b.screens
  pub others : (d : ClientId) → c ≢ d → lookup d r.0.clients ≡ lookup d b.clients
  pub replies : All (IsReplyTo c) r.1
  pub refused : is_greeting message ≡ false → (r.0 ≡ b) × (any is_end r.1 ≡ true)

Shut-refuse :
    {Parser : Type 0} (c : ClientId) (message : ClientMessage) (b : Broker Parser) (reason : Text)
    → Shut c message b (b, refuse c reason)
Shut-refuse c message b reason = record {
  routes = refl;
  screens = refl;
  others = λ d h. refl;
  replies = (refl, (refl, tt));
  refused = λ e. (refl, refl);
}

greet-Shut :
    {Parser : Type 0} (c : ClientId) (message : ClientMessage) (b : Broker Parser)
    → Shut c message b (greet c message b)
unfolding greet adjust_client
greet-Shut c (ClientMessage.hello protocol name) b =
    elim (Bool-cases (protocol == protocol_version)) [
      | inl e ↦
          rw (e, greet)
            (record {
              routes = refl;
              screens = refl;
              others = λ d h. ground (
                arith,
                h,
                lookup-adjust c (λ session. record session { greeted = true }) b.clients d,
              );
              replies = (refl, tt);
              refused = λ f. absurd (ground (arith, e, f));
            })
      | inr e ↦ rw (e, greet) (Shut-refuse c _ b _)
    ]
greet-Shut c message b = Shut-refuse c message b _

-- Whatever a connected client sends before its handshake, no route, no screen and no other client's
-- session changes, and every effect is a reply to that client or the end of its connection. Unless
-- it is a `client.hello` that names the daemon's protocol, nothing changes at all and the
-- connection ends.
pub handle-Shut :
    {Parser : Type 0} (c : ClientId) (message : ClientMessage) (b : Broker Parser)
    (session : Client)
    → lookup c b.clients ≡ some session
    → session.greeted ≡ false
    → Shut c message b (handle c message b)
unfolding handle
handle-Shut c message b session e f = rw (e, handle, f) (greet-Shut c message b)
