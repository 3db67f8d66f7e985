-- ===== src/Payments/StripeTests.antt =====
-- A client of Stripe that counts its calls, and answers with one session.
use theokit_plugins.Common.{
  ℕ, suc, ℤ, pos, String, true, false, none, some, [], ◌∷◌, ◌≡◌, ◌↔◌, refl, if◌then◌else◌, ◌==◌,
  string_eq,
}
use theokit_plugins.Common.Assoc.{get}
use theokit_plugins.Common.Async.{Attempt, returned, threw}
use theokit_plugins.Payments.Abacate.Charges.{
  CheckoutInput, CheckoutStatus, RefundInput, RefundResult, whole, is_positive, is_empty, paid,
  refunded, embedded, cancelled,
}
use theokit_plugins.Payments.Abacate.Webhook.{WebhookRequest, WebhookEvent, checkout_completed}
use theokit_plugins.Payments.Stripe.{
  Session, Client, stripe_error, signature_error, by_name, absent, expanded, hosted_form, params_of,
  session_status, above_zero,
}
use theokit_plugins.Payments.Stripe.Calls.{
  create_checkout, create_checkout_session, retrieve_checkout, resolve_payment_intent,
  create_refund, refund, refund_partial, cancel_subscription,
}
use theokit_plugins.Payments.Stripe.Calls.Checkouts.{
  Agree, IsPaid, IsRefundOf, create_checkout_session-create_checkout, retrieve_checkout-IsPaid,
}
use theokit_plugins.Payments.Stripe.Calls.Refunds.{IsRefund, refund_partial-IsRefund}
use theokit_plugins.Payments.Stripe.Webhook.{
  StripeEvent, event_of, or_else, verify_webhook, verify_webhook-IsConstructed,
}

runs : Unit {0}
unfolding get session_status create_checkout create_checkout_session retrieve_checkout
    resolve_payment_intent create_refund refund refund_partial cancel_subscription verify_webhook
runs = tt

abbrev sale : Session
sale = record {
  id = "cs_1";
  url = some "https://pay";
  client_secret = none;
  status = some "complete";
  payment_status = "paid";
  payment_intent = expanded (record { id = "pi_1"; latest_charge = absent });
  subscription = by_name "sub_1";
  amount_total = some (pos 500);
  currency = some "brl";
}

abbrev counting : Client ℕ String
counting = record {
  create_session = λ params key n. (returned sale, suc n);
  retrieve_session = λ reference expand n.
      (if reference == "cs_1" then returned sale else threw "No such session", suc n);
  create_refund = λ params key n. (returned (record { id = "re_1"; amount = pos 100 }), suc n);
  cancel = λ id n. (returned (record { id = id; status = "canceled" }), suc n);
}

abbrev order : CheckoutInput
order = record {
  ui_mode = none;
  items = record { ref = "price_1"; quantity = pos 1 } ∷ [];
  mode = none;
  currency = none;
  success_url = none;
  cancel_url = none;
  return_url = none;
  customer_ref = none;
  idempotency_key = none;
  metadata = none;
}

abbrev returned_goods : RefundInput
returned_goods = record { reference = "cs_1"; reason = none; idempotency_key = some "k" }

calls_test :
    (create_checkout counting (λ s. s) order 0 ≡ (returned (hosted_form "cs_1" "https://pay"), 1))
    × ((create_checkout counting (λ s. s) (record order { ui_mode = some embedded }) 0).0
        ≡ threw (stripe_error "missing_client_secret"))
    × ((retrieve_checkout counting "cs_2" 0).0 ≡ threw (stripe_error "retrieve_failed"))
    × ((refund counting returned_goods 0).1 ≡ 2)
    × (refund_partial counting returned_goods (whole (pos 0)) 0
        ≡ (threw (stripe_error "invalid_amount"), 0))
    × (cancel_subscription counting "cs_1" 0
        ≡ (returned (record { id = "sub_1"; status = cancelled }), 2))
unfolding runs
calls_test = (refl, refl, refl, refl, refl, refl)

create_checkout_session-create_checkout_example :
    ((create_checkout_session counting (params_of (λ s. s) order) 0).1
      ≡ (create_checkout counting (λ s. s) order 0).1)
    × Agree
        (create_checkout_session counting (params_of (λ s. s) order) 0).0
        (create_checkout counting (λ s. s) order 0).0
create_checkout_session-create_checkout_example =
    create_checkout_session-create_checkout counting (λ s. s) order 0 refl

abbrev paid_status : CheckoutStatus
paid_status = record {
  id = "cs_1";
  status = paid;
  amount_in_cents = some (pos 500);
  amount_refunded_in_cents = pos 0;
}

sale_asked : retrieve_checkout counting "cs_1" 0 ≡ (returned paid_status, 1)
unfolding runs
sale_asked = refl

retrieve_checkout-IsPaid_example :
    (s : Session) × (counting.retrieve_session "cs_1" true 0 ≡ (returned s, 1))
    × (paid_status.id ≡ s.id)
    × (paid_status.status ≡ paid → IsPaid s paid_status.amount_refunded_in_cents)
    × ((paid_status.status ≡ refunded) ↔ (above_zero paid_status.amount_refunded_in_cents ≡ true))
    × IsRefundOf s paid_status.amount_refunded_in_cents
retrieve_checkout-IsPaid_example =
    retrieve_checkout-IsPaid counting "cs_1" 0 1 paid_status sale_asked

refund_partial-IsRefund_example :
    (is_positive (whole (pos 100)) ≡ false
      → refund_partial counting returned_goods (whole (pos 100)) 0
        ≡ (threw (stripe_error "invalid_amount"), 0))
    × ((r : RefundResult) (w' : ℕ)
        → refund_partial counting returned_goods (whole (pos 100)) 0 ≡ (returned r, w')
        → (n : ℤ) × (whole (pos 100) ≡ whole n)
          × (is_positive (whole (pos 100)) ≡ true)
          × IsRefund counting returned_goods (some n) 0 r w')
refund_partial-IsRefund_example =
    refund_partial-IsRefund counting returned_goods (whole (pos 100)) 0

-- The library takes the signature "good" only.
abbrev construct : String → String → String → Attempt String StripeEvent
construct body signature secret =
    if signature == "good"
    then returned (record { id = "evt_1"; type = "checkout.session.completed" })
    else threw "bad signature"

abbrev hook : WebhookRequest
hook = record { raw_body = "{}"; headers = ("stripe-signature", "good") ∷ []; url = none }

abbrev completed : WebhookEvent
completed = record {
  type = checkout_completed;
  id = "evt_1";
  provider_event_type = "checkout.session.completed";
}

hook_verified : verify_webhook construct (some "whsec") hook ≡ returned completed
unfolding runs
hook_verified = refl

hook_refused :
    (verify_webhook construct (some "whsec") (record hook { headers = [] }) ≡ threw signature_error)
    × (verify_webhook construct (some "") hook ≡ threw (stripe_error "missing_webhook_secret"))
unfolding runs
hook_refused = (refl, refl)

verify_webhook-IsConstructed_example :
    (secret : String) × (some "whsec" ≡ some secret)
    × (is_empty secret ≡ false)
    × (signature : String) × (or_else
          (get "stripe-signature" hook.headers)
          (get "Stripe-Signature" hook.headers)
        ≡ some signature)
    × (is_empty signature ≡ false)
    × (e : StripeEvent) × (construct hook.raw_body signature secret ≡ returned e)
    × (completed ≡ event_of e)
verify_webhook-IsConstructed_example =
    verify_webhook-IsConstructed construct (some "whsec") hook completed hook_verified
