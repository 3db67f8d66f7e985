-- ===== src/Payments/Abacate/Charges.antt =====
-- packages/plugin-payments/src/providers/abacatepay.ts: checkouts, PIX charges, the status of
-- either, refunds and the end of a subscription.
pub mod Guards
use theokit_plugins.Common.{
  ℕ, zero, suc, ℤ, pos, negsuc, String, Bool, true, false, Option, none, some, List, [], ◌∷◌,
  if◌then◌else◌, ◌||◌, ◌&&◌, not, length, nat_beq, ◌==◌, string_eq,
}
use Prim.Native.String
use theokit_plugins.Common.Assoc.{Assoc, get}
use theokit_plugins.Common.Async.{Attempt, Async, returned, threw, throw, ◌>>=◌}
use theokit_plugins.Common.Text.{codes, begins}
use theokit_plugins.Payments.Abacate.{
  Field, undefined, null, other, text, number, Object, Envelope, Parsed, Response, CheckoutItem,
  Payload, no_body, checkout, pix, by_id, get_method, post_method, Call, ProviderError,
  provider_error, Options, Answer, request,
}

pub data UiMode : Type 0 where
  hosted embedded : UiMode

pub data CheckoutMode : Type 0 where
  payment subscription : CheckoutMode

-- `CheckoutInput`
pub record CheckoutInput : Type 0 where
  pub ui_mode : Option UiMode
  pub items : List CheckoutItem
  pub mode : Option CheckoutMode
  pub currency : Option String
  pub success_url : Option String
  pub cancel_url : Option String
  pub return_url : Option String
  pub customer_ref : Option String
  pub idempotency_key : Option String
  pub metadata : Option (Assoc String String)

-- `HostedCheckoutResult`
pub record CheckoutResult : Type 0 where
  pub id : String
  pub url : String

-- A number, whole or not.
pub data Amount : Type 0 where
  fractional : Amount
  whole : ℤ → Amount

pub record PixChargeInput : Type 0 where
  pub amount_in_cents : Amount
  pub description : Option String
  pub expires_in_seconds : Option ℤ
  pub customer : Option (Assoc String String)
  pub metadata : Option (Assoc String String)

pub record PixChargeResult : Type 0 where
  pub id : String
  pub br_code : String
  pub br_code_base64 : String

pub data PaymentStatus : Type 0 where
  pending paid expired cancelled refunded failed unknown : PaymentStatus

pub record CheckoutStatus : Type 0 where
  pub id : String
  pub status : PaymentStatus
  pub amount_in_cents : Option ℤ
  pub amount_refunded_in_cents : ℤ

pub record RefundInput : Type 0 where
  pub reference : String
  pub reason : Option String
  pub idempotency_key : Option String

pub record RefundResult : Type 0 where
  pub id : String
  pub amount_in_cents : Option ℤ

pub record SubscriptionStatus : Type 0 where
  pub id : String
  pub status : PaymentStatus

-- `typeof f === 'string' ? f : or_else`
abbrev pub text_or : String → Field → String
text_or s (text t) = t
text_or s undefined = s
text_or s null = s
text_or s other = s
text_or s (number n) = s

abbrev pub amount_of : Field → Option ℤ
amount_of (number n) = some n
amount_of (text t) = none
amount_of undefined = none
amount_of null = none
amount_of other = none

abbrev pub is_empty : String → Bool
is_empty String.[] = true
is_empty (String.◌∷◌ c s) = false

-- `STATUS_MAP`
abbrev pub status_map : Assoc String PaymentStatus
status_map =
    ("PENDING", pending)
    ∷ ("PAID", paid)
    ∷ ("EXPIRED", expired)
    ∷ ("CANCELLED", cancelled)
    ∷ ("REFUNDED", refunded)
    ∷ []

abbrev pub or_unknown : Option PaymentStatus → PaymentStatus
or_unknown none = unknown
or_unknown (some s) = s

abbrev pub refund_of : PaymentStatus → Option ℤ → ℤ
refund_of refunded (some n) = n
refund_of refunded none = pos 0
refund_of pending o = pos 0
refund_of paid o = pos 0
refund_of expired o = pos 0
refund_of cancelled o = pos 0
refund_of failed o = pos 0
refund_of unknown o = pos 0

abbrev pub starts_with : String → String → Bool
starts_with prefix s = begins (codes prefix) (codes s)

-- `pix_char_…`, `card_…` and `char_…`
unfoldable pub is_charge : String → Bool
is_charge reference =
    starts_with "pix_char_" reference
    || starts_with "card_" reference
    || starts_with "char_" reference

abbrev pub is_embedded : Option UiMode → Bool
is_embedded none = false
is_embedded (some hosted) = false
is_embedded (some embedded) = true

abbrev pub is_subscription : Option CheckoutMode → Bool
is_subscription none = false
is_subscription (some payment) = false
is_subscription (some subscription) = true

abbrev pub is_positive : Amount → Bool
is_positive fractional = false
is_positive (whole (pos zero)) = false
is_positive (whole (pos (suc n))) = true
is_positive (whole (negsuc n)) = false

abbrev pub cents_of : Amount → ℤ
cents_of fractional = pos 0
cents_of (whole n) = n

abbrev pub call_of : String → Payload → Call
call_of path payload = record { method = post_method; path = path; payload = payload }

-- What is made of a field that has to be a text, and not an empty one.
abbrev pub with_text : {F A : Type 0} → (code : String) → Field → (String → A) → Answer F A
with_text code f k =
    if is_empty (text_or "" f) then threw (provider_error code) else returned (k (text_or "" f))

-- `data.id ?? data.refundPublicId`
abbrev pub or_else : Field → Field → Field
or_else undefined g = g
or_else null g = g
or_else other g = other
or_else (text t) g = text t
or_else (number n) g = number n

module _ {W F : Type 0} (do_fetch : Call → W → Attempt F (Response F) × W)
    (parse_envelope : String → Parsed Envelope)
    (to_upper_case encode_uri_component : String → String) (opts : Options) where
  abbrev pub Calling : Type 0 → Type 0
  Calling A = Async W (ProviderError F) A

  -- `get`, `post`
  unfoldable pub post : String → Payload → (code : String) → Calling Object
  unfolding request
  post path payload code = request do_fetch parse_envelope (call_of path payload) code

  unfoldable pub get_from : String → (code : String) → Calling Object
  unfolding request
  get_from path code =
      request do_fetch parse_envelope
        (record { method = get_method; path = path; payload = no_body }) code

  abbrev pub not_brl : Option String → Bool
  not_brl none = false
  not_brl (some currency) = not (to_upper_case currency == "BRL")

  -- The early errors of `createCheckout`, in their order.
  unfoldable pub checkout_refusal : CheckoutInput → Option String
  checkout_refusal input =
      if is_embedded input.ui_mode
      then some "embedded_not_implemented"
      else if not_brl input.currency
      then some "unsupported_currency"
      else if nat_beq (length input.items) 0
      then some "empty_checkout"
      else if is_subscription input.mode && not (nat_beq (length input.items) 1)
      then some "subscription_requires_single_item"
      else none

  abbrev pub payload_of : CheckoutInput → Payload
  payload_of input =
      checkout input.items opts.methods input.success_url input.cancel_url input.customer_ref
        input.metadata

  abbrev pub checkout_path : CheckoutInput → String
  checkout_path input =
      if is_subscription input.mode then "/subscriptions/create" else "/checkouts/create"

  abbrev pub reading : {A : Type 0} → (Object → Answer F A) → Object → Calling A
  reading k o w = (k o, w)

  abbrev pub checkout_result : Object → Answer F CheckoutResult
  checkout_result o =
      with_text "missing_checkout_url" (o "url")
        (λ url. record { id = text_or "" (o "id"); url = url })

  abbrev pub unless_refused : {A : Type 0} → Option String → Calling A → Calling A
  unless_refused none m = m
  unless_refused (some code) m = throw (provider_error code)

  -- `createCheckout`
  unfoldable pub create_checkout : CheckoutInput → Calling CheckoutResult
  unfolding checkout_refusal post
  create_checkout input =
      unless_refused (checkout_refusal input) (
        post (checkout_path input) (payload_of input) "checkout_failed" >>= reading checkout_result)

  abbrev pub pix_payload : PixChargeInput → Payload
  pix_payload input =
      pix (cents_of input.amount_in_cents) input.description input.expires_in_seconds input.customer
        input.metadata

  abbrev pub pix_result : Object → Answer F PixChargeResult
  pix_result o = with_text "missing_br_code" (o "brCode") (λ code. record {
    id = text_or "" (o "id");
    br_code = code;
    br_code_base64 = text_or "" (o "brCodeBase64");
  })

  -- `createPixCharge`
  unfoldable pub create_pix_charge : PixChargeInput → Calling PixChargeResult
  unfolding post
  create_pix_charge input =
      unless_refused (if is_positive input.amount_in_cents then none else some "invalid_amount")
        (post "/transparents/create" (pix_payload input) "pix_charge_failed" >>= reading pix_result)

  -- `STATUS_MAP[status]`, of the status in capitals.
  abbrev pub status_of : Object → PaymentStatus
  status_of o = or_unknown (get (to_upper_case (text_or "" (o "status"))) status_map)

  abbrev pub status_result : String → Object → Answer F CheckoutStatus
  status_result reference o = returned (record {
    id = text_or reference (o "id");
    status = status_of o;
    amount_in_cents = amount_of (o "amount");
    amount_refunded_in_cents = refund_of (status_of o) (amount_of (o "amount"));
  })

  abbrev pub status_path : String → String
  status_path reference =
      String.◌++◌ (if is_charge reference then "/transparents/check?id=" else "/checkouts/get?id=")
        (encode_uri_component reference)

  -- `retrieveCheckout`
  unfoldable pub retrieve_checkout : String → Calling CheckoutStatus
  unfolding is_charge get_from get
  retrieve_checkout reference =
      unless_refused
        (if is_charge reference || starts_with "bill_" reference
          then none
          else some "unknown_reference")
        (get_from (status_path reference) "retrieve_failed" >>= reading (status_result reference))

  abbrev pub cancel_result : String → Object → Answer F SubscriptionStatus
  cancel_result reference o = returned (record {
    id = text_or reference (o "id");
    status = if to_upper_case (text_or "" (o "status")) == "CANCELLED" then cancelled else unknown;
  })

  -- `cancelSubscription`
  unfoldable pub cancel_subscription : String → Calling SubscriptionStatus
  unfolding post
  cancel_subscription reference =
      unless_refused (if starts_with "subs_" reference then none else some "unknown_reference") (
        post "/subscriptions/cancel" (by_id reference none) "cancel_failed"
        >>= reading (cancel_result reference))

  abbrev pub refund_result : Object → Answer F RefundResult
  refund_result o =
      with_text "refund_failed" (or_else (o "id") (o "refundPublicId"))
        (λ id. record { id = id; amount_in_cents = amount_of (o "amount") })

  -- `refund`
  unfoldable pub refund : RefundInput → Calling RefundResult
  unfolding is_charge post
  refund input =
      post (if is_charge input.reference then "/transparents/refund" else "/checkouts/refund")
        (by_id input.reference input.reason) "refund_failed"
      >>= reading refund_result
