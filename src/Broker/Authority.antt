-- ===== src/Broker/Authority.antt =====
-- src/daemon/broker.rs: which effects need the control lease of a pane. Those that carry on an upload
-- or a download that was begun name no pane, and need none.
use super_herdr.Common.{◌≡◌, true, List, inl, inr, arith}
use super_herdr.Common.Tests.{Bool-cases}
use super_herdr.Common.Lists.{All}
use super_herdr.Common.Order.{Text, nat_ord}
use super_herdr.Model.{PaneId, id_ord}
use super_herdr.Protocol.{ClientMessage}
use super_herdr.Broker.State.{ClientId, Effect, Broker}
use super_herdr.Broker.Leases.{refusal, holds_control, guarded}
use super_herdr.Broker.Handle.{forwarded, leased}

module _ {Parser : Type 0} where
  -- What `client` must hold for an effect: the lease, before its message, of every pane that is typed
  -- into, scrolled or pasted into, or on whose host an upload, a download or a transfer is begun or an
  -- upload resumed; and the lease, after its message, of a pane that is resized.
  abbrev pub Permitted : Broker Parser → Broker Parser → ClientId → Effect → Type 0
  Permitted b b' client (Effect.route_input pane bytes) = holds_control b client pane ≡ true
  Permitted b b' client (Effect.route_scroll pane direction lines column row modifiers) =
      holds_control b client pane ≡ true
  Permitted b b' client (Effect.paste_pane_text c request pane body) =
      holds_control b client pane ≡ true
  Permitted b b' client (Effect.begin_upload c request pane mime name size) =
      holds_control b client pane ≡ true
  Permitted b b' client (Effect.resume_upload c request transfer pane size) =
      holds_control b client pane ≡ true
  Permitted b b' client (Effect.begin_download c request pane path) =
      holds_control b client pane ≡ true
  Permitted b b' client (Effect.transfer_between c request source path destination name) =
      (holds_control b client source ≡ true) × (holds_control b client destination ≡ true)
  Permitted b b' client (Effect.route_resize pane cols rows) = holds_control b' client pane ≡ true
  Permitted b b' client _ = Unit {0}

  pub guarded_rule {ℓ} :
      (P : Effect → Type ℓ) (b : Broker Parser) (client : ClientId) (pane : PaneId)
      (effects : List Effect)
      → ((reason : Text) → P (refusal client reason))
      → (holds_control b client pane ≡ true → All P effects)
      → All P (guarded b client pane effects)
  unfolding guarded
  guarded_rule P b client pane effects refused h = elim (Bool-cases (holds_control b client pane)) [
    | inl holder ↦ rw (holder, guarded) (h holder)
    | inr other ↦ rw (other, guarded) (refused _, tt)
  ]

  forwarded-Permitted :
      (b b' : Broker Parser) (client : ClientId) (message : ClientMessage)
      → All (Permitted b b' client) (forwarded client message)
  unfolding forwarded
  forwarded-Permitted b b' c (ClientMessage.run_operation request operation) = (tt, tt)
  forwarded-Permitted b b' c _ = ground arith

  pub leased-Permitted :
      (b b' : Broker Parser) (c : ClientId) (message : ClientMessage)
      → All (Permitted b b' c) (leased c message b)
  unfolding leased
  leased-Permitted b b' c (ClientMessage.pane_input pane bytes) =
      guarded_rule (Permitted b b' c) b c pane _ (λ reason. tt) (λ h. (h, tt))
  leased-Permitted b b' c (ClientMessage.pane_scroll pane direction lines column row modifiers) =
      guarded_rule (Permitted b b' c) b c pane _ (λ reason. tt) (λ h. (h, tt))
  leased-Permitted b b' c (ClientMessage.paste_pane_text request pane body) =
      guarded_rule (Permitted b b' c) b c pane _ (λ reason. tt) (λ h. (h, tt))
  leased-Permitted b b' c (ClientMessage.begin_upload request pane mime name size) =
      guarded_rule (Permitted b b' c) b c pane _ (λ reason. tt) (λ h. (h, tt))
  leased-Permitted b b' c (ClientMessage.resume_upload request transfer pane size) =
      guarded_rule (Permitted b b' c) b c pane _ (λ reason. tt) (λ h. (h, tt))
  leased-Permitted b b' c (ClientMessage.begin_download request pane path) =
      guarded_rule (Permitted b b' c) b c pane _ (λ reason. tt) (λ h. (h, tt))
  leased-Permitted b b' c (ClientMessage.transfer_between request source path destination name) =
      guarded_rule (Permitted b b' c) b c source _ (λ reason. tt)
        (λ h. guarded_rule (Permitted b b' c) b c destination _ (λ reason. tt) (λ k. ((h, k), tt)))
  leased-Permitted b b' c message = forwarded-Permitted b b' c message
