-- ===== src/Payments/Stripe/Webhook.antt =====
-- packages/plugin-payments/src/providers/stripe.ts, `verifyWebhook`. `constructEvent` of the SDK is
-- a parameter.
use theokit_plugins.Common.{
  String, false, Option, none, some, [], ◌∷◌, ◌≡◌, refl, arith, Bool-cases, inl, inr, if◌then◌else◌,
  string_eq,
}
use theokit_plugins.Common.Assoc.{Assoc, get}
use theokit_plugins.Common.Async.{Attempt, returned, threw}
use theokit_plugins.Payments.Abacate.Charges.{is_empty}
use theokit_plugins.Payments.Abacate.Webhook.{
  WebhookRequest, WebhookEvent, EventType, checkout_completed, checkout_expired, payment_failed,
  payment_refunded, payment_disputed, or_inherited,
}
use theokit_plugins.Payments.Stripe.{StripeError, stripe_error, signature_error}

-- `Stripe.Event`
pub record StripeEvent : Type 0 where
  pub id : String
  pub type : String

-- `EVENT_MAP`
abbrev pub stripe_events : Assoc String EventType
stripe_events =
    ("checkout.session.completed", checkout_completed)
    ∷ ("checkout.session.async_payment_succeeded", checkout_completed)
    ∷ ("checkout.session.expired", checkout_expired)
    ∷ ("checkout.session.async_payment_failed", payment_failed)
    ∷ ("payment_intent.payment_failed", payment_failed)
    ∷ ("charge.refunded", payment_refunded)
    ∷ ("charge.dispute.created", payment_disputed)
    ∷ []

abbrev pub event_of : StripeEvent → WebhookEvent
event_of e = record {
  type = or_inherited e.type (get e.type stripe_events);
  id = e.id;
  provider_event_type = e.type;
}

-- `a ?? b`
abbrev pub or_else : Option String → Option String → Option String
or_else none b = b
or_else (some a) b = some a

-- A text that is there and not empty, or the error.
abbrev pub required :
    {F A : Type 0}
    → StripeError F
    → (String → Attempt (StripeError F) A)
    → Option String
    → Attempt (StripeError F) A
required e k none = threw e
required e k (some t) = if is_empty t then threw e else k t

abbrev pub of_construct :
    {F : Type 0} → Attempt F StripeEvent → Attempt (StripeError F) WebhookEvent
of_construct (returned e) = returned (event_of e)
of_construct (threw x) = threw signature_error

module _ {F : Type 0}
    (construct_event : (raw_body signature secret : String) → Attempt F StripeEvent) where
  -- `verifyWebhook`
  unfoldable pub verify_webhook :
      (webhook_secret : Option String) → WebhookRequest → Attempt (StripeError F) WebhookEvent
  verify_webhook webhook_secret req =
      required (stripe_error "missing_webhook_secret")
        (λ secret.
          required signature_error
            (λ signature. of_construct (construct_event req.raw_body signature secret))
            (or_else (get "stripe-signature" req.headers) (get "Stripe-Signature" req.headers)))
        webhook_secret

  required-returned :
      {A : Type 0} (e : StripeError F) (k : String → Attempt (StripeError F) A) (o : Option String)
      (a : A)
      → required e k o ≡ returned a
      → (t : String) × (o ≡ some t) × (is_empty t ≡ false) × (k t ≡ returned a)
  required-returned e k none a h = cc
  required-returned e k (some t) a h = elim (Bool-cases (is_empty t)) [
    | inl empty ↦ absurd (ground arith)
    | inr full ↦ (t, refl, full, ground arith)
  ]

  of_construct-returned :
      (o : Attempt F StripeEvent) (v : WebhookEvent)
      → of_construct o ≡ returned v
      → (e : StripeEvent) × (o ≡ returned e) × (v ≡ event_of e)
  of_construct-returned (returned e) v h = (e, refl, ground arith)
  of_construct-returned (threw x) v h = cc

  -- An event that is returned is one that Stripe's library constructed from the body as it came,
  -- under a secret and a signature that are not empty.
  pub verify_webhook-IsConstructed :
      (webhook_secret : Option String) (req : WebhookRequest) (v : WebhookEvent)
      → verify_webhook webhook_secret req ≡ returned v
      → (secret : String) × (webhook_secret ≡ some secret)
        × (is_empty secret ≡ false)
        × (signature : String) × (or_else
              (get "stripe-signature" req.headers)
              (get "Stripe-Signature" req.headers)
            ≡ some signature)
        × (is_empty signature ≡ false)
        × (e : StripeEvent) × (construct_event req.raw_body signature secret ≡ returned e)
        × (v ≡ event_of e)
  unfolding verify_webhook
  verify_webhook-IsConstructed webhook_secret req v h =
      let (secret, configured, full, h1) = required-returned _ _ webhook_secret v h in
      let (signature, given, full', h2) = required-returned _ _ _ v h1 in
      let (e, built, is) = of_construct-returned _ v h2 in
      (secret, configured, full, signature, given, full', e, built, is)
