-- ===== src/Payments/Stripe/Calls.antt =====
-- packages/plugin-payments/src/providers/stripe.ts: what the adapter asks of the client, and
-- `createCheckoutSession` of checkout.ts.
pub mod Checkouts
pub mod Refunds
use theokit_plugins.Common.{
  ℤ, pos, zero, suc, String, Bool, true, false, Option, none, some, if◌then◌else◌, ◌==◌, string_eq,
}
use theokit_plugins.Common.Async.{Attempt, Async, returned, threw, throw, pure, proceed, ◌>>=◌}
use theokit_plugins.Payments.Abacate.Charges.{
  CheckoutInput, PaymentStatus, cancelled, unknown, CheckoutStatus, SubscriptionStatus, RefundInput,
  RefundResult, Amount, fractional, whole, is_positive, is_embedded, starts_with,
}
use theokit_plugins.Payments.Stripe.{
  Reference, PaymentIntent, Session, SessionParams, RefundParams, Refund, StripeSubscription,
  Client, StripeError, stripe_error, CheckoutForm, coded, uncaught, params_of, form_of,
  SessionError, form_of_session, session_status, refunded_in, id_of, or_code,
}

abbrev pub refund_result : Refund → RefundResult
refund_result r = record { id = r.id; amount_in_cents = some r.amount }

abbrev pub status_of_session : Session → CheckoutStatus
status_of_session s =
    let amount = refunded_in s.payment_intent in
    record {
      id = s.id;
      status = session_status s amount;
      amount_in_cents = s.amount_total;
      amount_refunded_in_cents = amount;
    }

abbrev pub status_of_subscription : StripeSubscription → SubscriptionStatus
status_of_subscription s = record {
  id = s.id;
  status = if s.status == "canceled" then cancelled else unknown;
}

module _ {W F : Type 0} (client : Client W F) where
  -- `createCheckout`
  unfoldable pub create_checkout :
      (to_lower_case : String → String) → CheckoutInput → Async W (StripeError F) CheckoutForm
  create_checkout to_lower_case input w =
      proceed (λ s w'. (form_of (is_embedded input.ui_mode) s, w'))
        (coded "checkout_failed"
          (client.create_session (params_of to_lower_case input) input.idempotency_key w))

  -- `createCheckoutSession`
  unfoldable pub create_checkout_session : SessionParams → Async W (SessionError F) CheckoutForm
  create_checkout_session params w =
      form_of_session params.embedded (client.create_session params none w)

  -- `retrieveCheckout`
  unfoldable pub retrieve_checkout : String → Async W (StripeError F) CheckoutStatus
  unfolding session_status
  retrieve_checkout reference w =
      proceed (λ s w'. (returned (status_of_session s), w'))
        (coded "retrieve_failed" (client.retrieve_session reference true w))

  -- What a `cs_` reference stands for: the id that its session has, or the error with the code.
  abbrev pub through_session :
      (Session → Option String) → (code : String) → String → Async W (StripeError F) String
  through_session part code reference w =
      proceed (λ s. or_code code (part s)) (uncaught (client.retrieve_session reference false w))

  -- `resolvePaymentIntent`
  unfoldable pub resolve_payment_intent : String → Async W (StripeError F) String
  resolve_payment_intent reference w =
      if starts_with "cs_" reference
      then through_session (λ s. id_of (λ i. i.id) s.payment_intent) "nothing_to_refund" reference w
      else (returned reference, w)

  abbrev pub ask_refund :
      RefundInput → Option ℤ → (intent : String) → Async W (StripeError F) Refund
  ask_refund input amount intent w = coded "refund_failed" (
      client.create_refund
        (record { payment_intent = intent; amount = amount; reason = input.reason })
        input.idempotency_key w)

  -- `createRefund`
  unfoldable pub create_refund : RefundInput → Option ℤ → Async W (StripeError F) Refund
  unfolding resolve_payment_intent
  create_refund input amount = resolve_payment_intent input.reference >>= ask_refund input amount

  unfoldable pub refund : RefundInput → Async W (StripeError F) RefundResult
  unfolding create_refund
  refund input = create_refund input none >>= λ r. pure (refund_result r)

  abbrev pub refund_positive : RefundInput → Amount → Async W (StripeError F) RefundResult
  refund_positive input fractional = throw (stripe_error "invalid_amount")
  refund_positive input (whole n) = create_refund input (some n) >>= λ r. pure (refund_result r)

  -- `refundPartial`
  unfoldable pub refund_partial : RefundInput → Amount → Async W (StripeError F) RefundResult
  refund_partial input amount w =
      if is_positive amount
      then refund_positive input amount w
      else (threw (stripe_error "invalid_amount"), w)

  abbrev pub cancel_id : (id : String) → Async W (StripeError F) SubscriptionStatus
  cancel_id id w =
      proceed (λ s w'. (returned (status_of_subscription s), w'))
        (coded "cancel_failed" (client.cancel id w))

  abbrev pub resolve_subscription : String → Async W (StripeError F) String
  resolve_subscription reference w =
      if starts_with "cs_" reference
      then through_session (λ s. id_of (λ i. i) s.subscription) "no_subscription" reference w
      else (returned reference, w)

  -- `cancelSubscription`
  unfoldable pub cancel_subscription : String → Async W (StripeError F) SubscriptionStatus
  cancel_subscription reference = resolve_subscription reference >>= cancel_id
