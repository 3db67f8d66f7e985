-- ===== src/Payments/Plugin.antt =====
-- packages/plugin-payments/src/plugin.ts: the providers, one store and one registry. A provider is
-- its `verifyWebhook`. The warning about production is left out.
use theokit_plugins.Common.{
  String, Bool, true, false, none, some, List, [], ◌∷◌, string_eq, ◌≡◌, ◌≢◌, refl, ap, ◌∙◌, ◌==◌,
  beq_ne,
}
use theokit_plugins.Common.Assoc.{Assoc, get, keys}
use theokit_plugins.Common.Async.{Attempt, Async, returned, threw, proceed-returned, pure}
use theokit_plugins.Payments.Store.{IdempotencyStore}
use theokit_plugins.Payments.Store.Laws.{Honours}
use theokit_plugins.Payments.Registry.{Registry, dispatch}
use theokit_plugins.Payments.Delivery.{
  World, VerifyError, PaymentEvent, PaymentWebhookResult, dispatched, event_key, run_idempotently,
  after_verify, process_payment_webhook,
}
use theokit_plugins.Payments.Delivery.Cycle.{expected, run_idempotently-Meets}
use theokit_plugins.Payments.Delivery.Namespace.{NoColon, event_key-injective}

-- The `TypeError`s of the plugin: no provider at all, or none under a key, with those there are.
pub data PluginError : Type 0 where
  no_providers : PluginError
  not_registered : (key : String) → (registered : List String) → PluginError

abbrev pub Provider : Type 0 → Type 0 → Type 0 → Type 0
Provider Request E R = Request → Attempt (VerifyError E) (PaymentEvent R)

pub record PaymentsPlugin (S H E R Request : Type 0) : Type 0 where
  pub providers : Assoc String (Provider Request E R)
  pub store : IdempotencyStore S E
  pub registry : Registry (PaymentEvent R) H E

module _ {S H E R Request : Type 0} where
  -- `payments`
  unfoldable pub payments :
      Assoc String (Provider Request E R)
      → IdempotencyStore S E
      → Registry (PaymentEvent R) H E
      → Attempt PluginError (PaymentsPlugin S H E R Request)
  payments [] store registry = threw no_providers
  payments (p ∷ ps) store registry =
      returned (record { providers = p ∷ ps; store = store; registry = registry })

  -- `provider`
  unfoldable pub provider :
      PaymentsPlugin S H E R Request → String → Attempt PluginError (Provider Request E R)
  unfolding get
  provider plugin key = elim (get key plugin.providers) [
    | none ↦ threw (not_registered key (keys plugin.providers))
    | some found ↦ returned found
  ]

  -- `handleWebhook`: a gateway that is not registered is refused before anything runs.
  unfoldable pub handle_webhook :
      PaymentsPlugin S H E R Request
      → String
      → Request
      → Attempt PluginError (Async (World S H) E PaymentWebhookResult)
  unfolding provider process_payment_webhook
  handle_webhook plugin gateway request = elim (provider plugin gateway) [
    | threw e ↦ threw e
    | returned verify ↦
        returned
          (process_payment_webhook plugin.store plugin.registry verify (some gateway) request)
  ]

expected-others :
    {H F : Type 0} (k j : String) (held : Bool) (p : Attempt F (Unit {0}) × H) (app : H)
    (claims : String → Bool)
    → (k == j) ≡ false
    → (expected k held p app claims).2 j ≡ claims j
expected-others k j true p app claims apart = refl
expected-others k j false (returned _, h) app claims apart = rw apart
expected-others k j false (threw e, h) app claims apart = refl

module _ {S H E R Request : Type 0} (store : IdempotencyStore S E) {claimed : S → String → Bool}
    (honours : Honours store claimed) (registry : Registry (PaymentEvent R) H E) where
  -- A delivery to one gateway moves no claim of another, if no gateway's name has a colon.
  pub process_payment_webhook-isolated :
      (verify : Provider Request E R) (g g' id : String) (request : Request)
      (event : PaymentEvent R) (w : World S H)
      → verify request ≡ returned event
      → NoColon g
      → NoColon g'
      → g ≢ g'
      → claimed
          (process_payment_webhook store registry verify (some g) request w).1.store
          (event_key g' id)
        ≡ claimed w.store (event_key g' id)
  unfolding process_payment_webhook after_verify
  process_payment_webhook-isolated verify g g' id request event w ok p q apart =
      let k = event_key g event.id in
      let run = dispatch event.type registry event in
      let m = run_idempotently-Meets store honours k run w in
      let other = beq_ne k (event_key g' id) (λ e. apart (event_key-injective g g' _ _ p q e).0) in
      rw ok (
        ap (λ end. claimed end.1.store (event_key g' id))
          (proceed-returned (run_idempotently store k run w) (λ o. pure (dispatched o)) m.outcome)
        ∙ m.claims (event_key g' id)
        ∙ expected-others k (event_key g' id) (claimed w.store k) (run w.app) w.app
            (claimed w.store) other)
