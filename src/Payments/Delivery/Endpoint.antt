-- ===== src/Payments/Delivery/Endpoint.antt =====
-- packages/plugin-payments/src/webhook.ts, `verifyAndParseWebhook` and `processWebhook`, and
-- server/webhook-controller.ts. Stripe's `constructEvent` is a parameter: it returns the event or
-- throws a message.
pub mod Status
use Prim.Native.String
use theokit_plugins.Common.{
  ℕ, String, Bool, true, false, Option, none, some, ◌≡◌, refl, if◌then◌else◌, ◌==◌, string_eq,
  arith,
}
use theokit_plugins.Common.Async.{Attempt, Async, returned, threw, pure, ◌>>=◌}
use theokit_plugins.Payments.Store.{IdempotencyStore}
use theokit_plugins.Payments.Store.Laws.{Honours}
use theokit_plugins.Payments.Registry.{Registry, Aggregate, dispatch}
use theokit_plugins.Payments.Delivery.{
  World, ok, handler_error, DispatchOutcome, SanitizedWebhookError, run_idempotently,
}
use theokit_plugins.Payments.Delivery.Cycle.{expected, Meets, run_idempotently-Meets}

-- `StripeSignatureError`
pub record SignatureError : Type 0 where
  pub message : String

pub record StripeEvent (R : Type 0) : Type 0 where
  pub id : String
  pub type : String
  pub object : R

abbrev pub missing_signature : String
missing_signature =
    "Missing stripe-signature header. Webhook MUST include the signature in the request headers."

pub data WebhookResult : Type 0 where
  dispatched : DispatchOutcome → WebhookResult
  signature_invalid : String → WebhookResult

pub record Delivered : Type 0 where
  pub raw_body : String
  pub signature_header : Option String

pub data Body : Type 0 where
  received : (event_id : String) → (duplicate : Bool) → Body
  signature_refused : (message : String) → Body
  handler_failed : (event_id : String) → Body

pub record Response : Type 0 where
  pub status : ℕ
  pub body : Body

-- `toResponse`
unfoldable pub to_response : WebhookResult → Response
to_response (dispatched (ok event_id duplicate)) = record {
  status = 200;
  body = received event_id duplicate;
}
to_response (signature_invalid message) = record { status = 400; body = signature_refused message }
to_response (dispatched (handler_error event_id error)) = record {
  status = 500;
  body = handler_failed event_id;
}

module _ {R : Type 0}
    (construct_event : (body signature secret : String) → Attempt String (StripeEvent R)) where
  abbrev constructed : Attempt String (StripeEvent R) → Attempt SignatureError (StripeEvent R)
  constructed (returned event) = returned event
  constructed (threw message) =
      threw (record { message = String.◌++◌ "Webhook signature verification failed: " message })

  -- `verifyAndParseWebhook`; an absent header and an empty one are both missing.
  unfoldable pub verify_and_parse_webhook :
      Delivered → String → Attempt SignatureError (StripeEvent R)
  verify_and_parse_webhook d secret = elim d.signature_header [
    | none ↦ threw (record { message = missing_signature })
    | some signature ↦
        if signature == ""
        then threw (record { message = missing_signature })
        else constructed (construct_event d.raw_body signature secret)
  ]

  module _ {S H E F : Type 0} (store : IdempotencyStore S E)
      (registry : Registry (StripeEvent R) H F) where
    unfoldable pub after_parse :
        Attempt SignatureError (StripeEvent R) → Async (World S H) E WebhookResult
    unfolding run_idempotently dispatch
    after_parse (threw e) = pure (signature_invalid e.message)
    after_parse (returned event) = do
      outcome ← run_idempotently store event.id (dispatch event.type registry event)
      pure (dispatched outcome)

    -- `processWebhook`
    unfoldable pub process_webhook : Delivered → String → Async (World S H) E WebhookResult
    unfolding verify_and_parse_webhook after_parse
    process_webhook d secret = after_parse (verify_and_parse_webhook d secret)

    -- `handle` of the controller
    unfoldable pub handle : Delivered → String → Async (World S H) E Response
    unfolding process_webhook to_response
    handle d secret = do result ← process_webhook d secret; pure (to_response result)
