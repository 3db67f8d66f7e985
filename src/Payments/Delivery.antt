-- ===== src/Payments/Delivery.antt =====
-- packages/plugin-payments/src: idempotent-dispatch.ts, `processWebhook` of webhook.ts,
-- `processPaymentWebhook` of dispatch.ts, plugin.ts and server/webhook-controller.ts. `S` is the
-- state of the idempotency store, `H` that of the application's handlers. Logging is left out.
pub mod Cycle
pub mod Namespace
pub mod Endpoint
use Prim.Native.String
use theokit_plugins.Common.{
  ℕ, String, Bool, true, false, Option, none, some, if◌then◌else◌, string_eq,
}
use theokit_plugins.Common.Assoc.{Assoc, get}
use theokit_plugins.Common.Async.{Attempt, Async, returned, threw, attempt, pure, throw, ◌>>=◌}
use theokit_plugins.Payments.Store.{IdempotencyStore}
use theokit_plugins.Payments.Registry.{Registry, Aggregate, dispatch}

pub record World (S H : Type 0) : Type 0 where
  pub store : S
  pub app : H

abbrev pub on_store : {S H E A : Type 0} → Async S E A → Async (World S H) E A
on_store m w = let (r, s) = m w.store in (r, record w { store = s })

abbrev pub on_app : {S H E A : Type 0} → Async H E A → Async (World S H) E A
on_app m w = let (r, h) = m w.app in (r, record w { app = h })

pub record SanitizedWebhookError : Type 0 where
  pub code : String
  pub message : String

pub data DispatchOutcome : Type 0 where
  ok : (event_id : String) → (duplicate : Bool) → DispatchOutcome
  handler_error : (event_id : String) → SanitizedWebhookError → DispatchOutcome

abbrev pub handlers_failed : SanitizedWebhookError
handlers_failed = record {
  code = "handler_error";
  message = "One or more webhook handlers failed.";
}

module _ {S H E F : Type 0} (store : IdempotencyStore S E) where
  -- What follows the `try`: a failed dispatch releases the claim, and an error of the release is
  -- swallowed.
  unfoldable pub after_dispatch :
      String → Attempt F (Unit {0}) → Async (World S H) E DispatchOutcome
  after_dispatch event_id (returned _) = pure (ok event_id false)
  after_dispatch event_id (threw e) = do
    released ← attempt {F = E} (on_store (store.release event_id))
    pure (handler_error event_id handlers_failed)

  -- `runIdempotently`
  unfoldable pub run_idempotently :
      String → Async H F (Unit {0}) → Async (World S H) E DispatchOutcome
  unfolding after_dispatch
  run_idempotently event_id run = do
    is_new ← on_store (store.mark_processed event_id)
    if is_new then (attempt (on_app run) >>= after_dispatch event_id) else pure (ok event_id true)

-- What verification of a request throws: an unverifiable signature, or anything else.
pub data VerifyError (E : Type 0) : Type 0 where
  signature_error : (provider message : String) → VerifyError E
  other_error : E → VerifyError E

pub record PaymentEvent (R : Type 0) : Type 0 where
  pub type : String
  pub id : String
  pub provider_event_type : String
  pub provider : String
  pub raw : R

pub data PaymentWebhookResult : Type 0 where
  dispatched : DispatchOutcome → PaymentWebhookResult
  signature_invalid : (provider message : String) → PaymentWebhookResult

-- `namespace ?? event.provider`
abbrev pub namespace_or : Option String → String → String
namespace_or none provider = provider
namespace_or (some n) provider = n

unfoldable pub event_key : String → String → String
event_key namespace id = String.◌++◌ namespace (String.◌++◌ ":" id)

module _ {S H E R : Type 0} (store : IdempotencyStore S E)
    (registry : Registry (PaymentEvent R) H E) where
  unfoldable pub after_verify :
      Option String
      → Attempt (VerifyError E) (PaymentEvent R)
      → Async (World S H) E PaymentWebhookResult
  unfolding run_idempotently event_key dispatch
  after_verify namespace (threw (signature_error provider message)) =
      pure (signature_invalid provider message)
  after_verify namespace (threw (other_error e)) = throw e
  after_verify namespace (returned event) = do
    outcome ←
        run_idempotently store (event_key (namespace_or namespace event.provider) event.id)
          (dispatch event.type registry event)
    pure (dispatched outcome)

  -- `processPaymentWebhook`; `verify` is the provider's `verifyWebhook`, whose promise settles by
  -- the request alone.
  unfoldable pub process_payment_webhook :
      {Request : Type 0}
      → (Request → Attempt (VerifyError E) (PaymentEvent R))
      → Option String
      → Request
      → Async (World S H) E PaymentWebhookResult
  unfolding after_verify
  process_payment_webhook verify namespace request = after_verify namespace (verify request)
