-- ===== src/Payments/GatewayTests.antt =====
-- Amounts, a gateway that answers two requests, and the theorems at them.
use theokit_plugins.Common.{
  arith, pos, String, true, Option, none, some, List, [], ◌∷◌, ◌≡◌, refl, ◌⊎◌, if◌then◌else◌, ◌==◌,
  string_eq,
}
use theokit_plugins.Common.Assoc.{get}
use theokit_plugins.Common.Async.{Attempt, returned, threw}
use theokit_plugins.Payments.Currency.{
  plain, amount_not_integer, zero_decimal_currencies, three_decimal_currencies, among, value_from,
  pad_end, scale_to_minor_units, to_multiple_of_ten, assert_safe_minor_units,
  format_amount_for_stripe,
}
use theokit_plugins.Payments.Currency.Charge.{
  IsCharge, IsProper, whole_of, format_amount_for_stripe-IsCharge,
  format_amount_for_stripe-IsProper,
}
use theokit_plugins.Payments.Abacate.{
  undefined, null, text, number, Object, Envelope, Parsed, json, Response, Call, Options,
  provider_error, request, post_method, checkout,
}
use theokit_plugins.Payments.Abacate.Answers.{IsOneCall}
use theokit_plugins.Payments.Abacate.Charges.{
  CheckoutInput, RefundInput, is_charge, is_subscription, checkout_refusal, create_checkout,
  retrieve_checkout, refund, post, get_from,
}
use theokit_plugins.Payments.Abacate.Charges.Guards.{
  IsAdmissible, IsText, create_checkout-IsGuarded,
}
use theokit_plugins.Payments.Abacate.Webhook.{
  WebhookRequest, WebhookEvent, checkout_completed, inherited_value, event_type, header,
  constant_time_equals, signed, verify_webhook,
}
use theokit_plugins.Payments.Abacate.Webhook.Trust.{IsTrusted, verify_webhook-IsTrusted}

abbrev same : String → String
same s = s

runs : Unit {0}
unfolding format_amount_for_stripe assert_safe_minor_units to_multiple_of_ten scale_to_minor_units
    pad_end value_from among create_checkout checkout_refusal post get_from request
    retrieve_checkout refund is_charge get verify_webhook header constant_time_equals signed
    event_type
runs = tt

-- 1.005 in dollars, 1.5 in yen, 1.2345 in dinars (which are rounded twice), and 1000 in yen.
format_amount_test :
    (format_amount_for_stripe same (plain (1 ∷ []) (0 ∷ 0 ∷ 5 ∷ [])) "usd" ≡ returned 101)
    × (format_amount_for_stripe same (plain (1 ∷ []) (5 ∷ [])) "jpy" ≡ threw amount_not_integer)
    × (format_amount_for_stripe same (plain (1 ∷ []) (2 ∷ 3 ∷ 4 ∷ 5 ∷ [])) "kwd" ≡ returned 1240)
    × (format_amount_for_stripe same (plain (1 ∷ 0 ∷ 0 ∷ 0 ∷ []) []) "jpy" ≡ returned 1000)
unfolding runs
format_amount_test = (refl, refl, refl, refl)

format_amount_for_stripe-IsCharge_example :
    IsCharge
      (among "usd" three_decimal_currencies)
      (1 ∷ [])
      (0 ∷ 0 ∷ 5 ∷ [])
      (format_amount_for_stripe same (plain (1 ∷ []) (0 ∷ 0 ∷ 5 ∷ [])) "usd")
unfolding among
format_amount_for_stripe-IsCharge_example =
    format_amount_for_stripe-IsCharge same (1 ∷ []) (0 ∷ 0 ∷ 5 ∷ []) "usd"
      (omega arith, (omega arith, (omega arith, tt))) refl

format_amount_for_stripe-IsProper_example :
    IsProper (plain (1 ∷ []) (0 ∷ 0 ∷ 5 ∷ [])) 101
    × (among "usd" zero_decimal_currencies ≡ true
        → whole_of (plain (1 ∷ []) (0 ∷ 0 ∷ 5 ∷ [])) ≡ some 101)
unfolding runs
format_amount_for_stripe-IsProper_example =
    format_amount_for_stripe-IsProper same (plain (1 ∷ []) (0 ∷ 0 ∷ 5 ∷ [])) "usd" 101 refl

-- The gateway writes down the paths that it is called at; every object has these fields.
abbrev fields : Object
fields name =
    if name == "url"
    then text "https://pay"
    else if name == "id"
    then text "bill_1"
    else if name == "status"
    then text "PAID"
    else if name == "amount"
    then number (pos 500)
    else if name == "event"
    then text "checkout.completed"
    else undefined

abbrev fetch : Call → List String → Attempt String (Response String) × List String
fetch call log = (returned (record { ok = true; text = returned "{}" }), call.path ∷ log)

abbrev parse : String → Parsed Envelope
parse body = json (record { error = null; data_field = some fields })

abbrev opts : Options
opts = record { webhook_secret = some "s3cret"; signature_key = some "key"; methods = none }

abbrev one_item : CheckoutInput
one_item = record {
  ui_mode = none;
  items = record { ref = "prod_1"; quantity = pos 1 } ∷ [];
  mode = none;
  currency = some "BRL";
  success_url = none;
  cancel_url = none;
  return_url = none;
  customer_ref = none;
  idempotency_key = none;
  metadata = none;
}

charges_test :
    (create_checkout fetch parse same same opts one_item []
      ≡ (returned (record { id = "bill_1"; url = "https://pay" }), "/checkouts/create" ∷ []))
    × (create_checkout fetch parse same same opts (record one_item { items = [] }) []
        ≡ (threw (provider_error "empty_checkout"), []))
    × ((retrieve_checkout fetch parse same same opts "pix_char_1" []).1
        ≡ "/transparents/check?id=pix_char_1" ∷ [])
    × (refund fetch parse same same opts
          (record { reference = "bill_1"; reason = none; idempotency_key = none })
          []
        ≡ (
          returned (record { id = "bill_1"; amount_in_cents = some (pos 500) }),
          "/checkouts/refund" ∷ [],
        ))
unfolding runs
charges_test = (refl, refl, refl, refl)

create_checkout-IsGuarded_example :
    ((IsAdmissible fetch parse same same opts one_item → ⊥)
      × (code : String) × (checkout_refusal fetch parse same same opts one_item ≡ some code)
      × (create_checkout fetch parse same same opts one_item []
          ≡ (threw (provider_error code), [])))
    ⊎ (IsAdmissible fetch parse same same opts one_item
        × IsOneCall fetch parse
            (record {
              method = post_method;
              path =
                  if is_subscription one_item.mode
                  then "/subscriptions/create"
                  else "/checkouts/create";
              payload =
                  checkout one_item.items opts.methods one_item.success_url one_item.cancel_url
                    one_item.customer_ref one_item.metadata;
            })
            (λ o r. IsText (o "url") r.url)
            []
            (create_checkout fetch parse same same opts one_item []))
create_checkout-IsGuarded_example = create_checkout-IsGuarded fetch parse same same opts one_item []

abbrev bill : RefundInput
bill = record { reference = "bill_1"; reason = none; idempotency_key = none }

-- A URL that never parses, an HMAC that is the body, and a body that is always the same object.
abbrev hmac : String → String → String
hmac key body = body

abbrev no_url : String → Attempt String (Option String)
no_url url = threw "Invalid URL"

abbrev parse_body : String → Parsed Object
parse_body body = json fields

abbrev delivered : WebhookRequest
delivered = record {
  raw_body = "{}";
  headers = ("x-webhook-secret", "s3cret") ∷ ("x-webhook-signature", "{}") ∷ [];
  url = none;
}

abbrev completed : WebhookEvent
completed = record {
  type = checkout_completed;
  id = "bill_1";
  provider_event_type = "checkout.completed";
}

verify_webhook_test :
    (verify_webhook hmac no_url parse_body opts delivered ≡ returned completed)
    × (event_type "toString" ≡ inherited_value "toString")
unfolding runs
verify_webhook_test = (refl, refl)

verify_webhook-IsTrusted_example : IsTrusted hmac no_url parse_body opts delivered completed
unfolding runs
verify_webhook-IsTrusted_example =
    verify_webhook-IsTrusted hmac no_url parse_body opts delivered completed refl
