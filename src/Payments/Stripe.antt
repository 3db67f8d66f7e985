-- ===== src/Payments/Stripe.antt =====
-- packages/plugin-payments/src/providers/stripe.ts and checkout.ts, over a client that is a
-- parameter: its calls change a world `W` and reject with an `F`. Messages of errors and untouched
-- answers (`raw`) are left out, and the currency of a status; amounts are whole numbers.
pub mod Calls
pub mod Webhook
use theokit_plugins.Common.{
  ℤ, pos, zero, suc, negsuc, String, Bool, true, false, Option, none, some, List, [], ◌∷◌,
  if◌then◌else◌, ◌||◌, ◌==◌, string_eq, ◌≡◌, refl, ap, ap₂,
}
use theokit_plugins.Common.Assoc.{Assoc, get}
use theokit_plugins.Common.Async.{Attempt, Async, returned, threw, throw, pure, proceed, ◌>>=◌}
use theokit_plugins.Payments.Abacate.{CheckoutItem}
use theokit_plugins.Payments.Abacate.Charges.{
  CheckoutInput, CheckoutMode, payment, PaymentStatus, pending, paid, expired, cancelled, refunded,
  unknown, CheckoutStatus, SubscriptionStatus, RefundInput, RefundResult, Amount, fractional, whole,
  is_positive, is_empty, is_embedded, starts_with,
}

-- What Stripe gives for a resource: nothing, its id, or the resource itself.
pub data Reference (A : Type 0) : Type 0 where
  absent : Reference A
  by_name : (id : String) → Reference A
  expanded : A → Reference A

pub record Charge : Type 0 where
  pub amount_refunded : ℤ

pub record PaymentIntent : Type 0 where
  pub id : String
  pub latest_charge : Reference Charge

-- `Stripe.Checkout.Session`; an expanded subscription is its id.
pub record Session : Type 0 where
  pub id : String
  pub url : Option String
  pub client_secret : Option String
  pub status : Option String
  pub payment_status : String
  pub payment_intent : Reference PaymentIntent
  pub subscription : Reference String
  pub amount_total : Option ℤ
  pub currency : Option String

-- `Stripe.Checkout.SessionCreateParams`; `ui_mode` is left out unless it is 'embedded'.
pub record SessionParams : Type 0 where
  pub mode : CheckoutMode
  pub line_items : List CheckoutItem
  pub embedded : Bool
  pub return_url : Option String
  pub success_url : Option String
  pub cancel_url : Option String
  pub customer : Option String
  pub currency : Option String
  pub metadata : Option (Assoc String String)

pub record RefundParams : Type 0 where
  pub payment_intent : String
  pub amount : Option ℤ
  pub reason : Option String

pub record Refund : Type 0 where
  pub id : String
  pub amount : ℤ

pub record StripeSubscription : Type 0 where
  pub id : String
  pub status : String

-- The calls of the SDK; the idempotency key is an option of the request.
pub record Client (W F : Type 0) : Type 0 where
  pub create_session : SessionParams → (key : Option String) → Async W F Session
  pub retrieve_session : (reference : String) → (expand : Bool) → Async W F Session
  pub create_refund : RefundParams → (key : Option String) → Async W F Refund
  pub cancel : (id : String) → Async W F StripeSubscription

-- `PaymentProviderError` with its code, `WebhookSignatureError`, and what a call rejects with where
-- nothing catches it.
pub data StripeError (F : Type 0) : Type 0 where
  stripe_error : (code : String) → StripeError F
  signature_error : StripeError F
  rejected : F → StripeError F

-- A result of `createCheckout`.
pub data CheckoutForm : Type 0 where
  hosted_form : (id url : String) → CheckoutForm
  embedded_form : (id client_secret : String) → CheckoutForm

-- `try { … } catch`, with the code of the error that is thrown instead, and no `try` at all.
abbrev pub coded :
    {W F A : Type 0} → (code : String) → Attempt F A × W → Attempt (StripeError F) A × W
coded code (returned a, w) = (returned a, w)
coded code (threw e, w) = (threw (stripe_error code), w)

abbrev pub uncaught : {W F A : Type 0} → Attempt F A × W → Attempt (StripeError F) A × W
uncaught (returned a, w) = (returned a, w)
uncaught (threw e, w) = (threw (rejected e), w)

abbrev pub map_option : {A B : Type 0} → (A → B) → Option A → Option B
map_option f none = none
map_option f (some a) = some (f a)

abbrev pub or_payment : Option CheckoutMode → CheckoutMode
or_payment none = payment
or_payment (some m) = m

abbrev pub params_of : (to_lower_case : String → String) → CheckoutInput → SessionParams
params_of to_lower_case input =
    let framed = is_embedded input.ui_mode in
    record {
      mode = or_payment input.mode;
      line_items = input.items;
      embedded = framed;
      return_url = if framed then input.return_url else none;
      success_url = if framed then none else input.success_url;
      cancel_url = if framed then none else input.cancel_url;
      customer = input.customer_ref;
      currency = map_option to_lower_case input.currency;
      metadata = input.metadata;
    }

-- Of an embedded session, the secret is needed; of a hosted one, the URL.
abbrev pub with_secret :
    {F : Type 0} → (missing : F) → String → Option String → Attempt F CheckoutForm
with_secret missing id none = threw missing
with_secret missing id (some t) =
    if is_empty t then threw missing else returned (embedded_form id t)

abbrev pub with_url : {F : Type 0} → (missing : F) → String → Option String → Attempt F CheckoutForm
with_url missing id none = threw missing
with_url missing id (some t) = returned (hosted_form id t)

-- `!session.url`
abbrev pub with_full_url :
    {F : Type 0} → (missing : F) → String → Option String → Attempt F CheckoutForm
with_full_url missing id none = threw missing
with_full_url missing id (some t) =
    if is_empty t then threw missing else returned (hosted_form id t)

abbrev pub form_of :
    {F : Type 0} → (embedded : Bool) → Session → Attempt (StripeError F) CheckoutForm
form_of true s = with_secret (stripe_error "missing_client_secret") s.id s.client_secret
form_of false s = with_url (stripe_error "missing_checkout_url") s.id s.url

-- The error of `createCheckoutSession`, or what the client rejects with.
pub data SessionError (F : Type 0) : Type 0 where
  misconfigured : SessionError F
  of_client : F → SessionError F

abbrev pub session_form :
    {F : Type 0} → (embedded : Bool) → Session → Attempt (SessionError F) CheckoutForm
session_form true s = with_secret misconfigured s.id s.client_secret
session_form false s = with_full_url misconfigured s.id s.url

abbrev pub form_of_session :
    {W F : Type 0}
    → (embedded : Bool) → Attempt F Session × W
    → Attempt (SessionError F) CheckoutForm × W
form_of_session embedded (returned s, w) = (session_form embedded s, w)
form_of_session embedded (threw e, w) = (threw (of_client e), w)

abbrev pub is_one_of : Option String → List String → Bool
is_one_of none names = false
is_one_of (some s) [] = false
is_one_of (some s) (n ∷ names) = s == n || is_one_of (some s) names

abbrev pub above_zero : ℤ → Bool
above_zero n = is_positive (whole n)

unfoldable pub session_status : Session → ℤ → PaymentStatus
session_status s amount =
    if above_zero amount
    then refunded
    else if is_one_of s.status ("expired" ∷ [])
    then expired
    else if is_one_of (some s.payment_status) ("paid" ∷ "no_payment_required" ∷ [])
    then paid
    else if is_one_of s.status ("open" ∷ "complete" ∷ [])
    then pending
    else unknown

abbrev pub refunded_of : Reference Charge → ℤ
refunded_of (expanded c) = c.amount_refunded
refunded_of r = pos 0

abbrev pub refunded_in : Reference PaymentIntent → ℤ
refunded_in (expanded i) = refunded_of i.latest_charge
refunded_in r = pos 0

abbrev pub id_of : {A : Type 0} → (A → String) → Reference A → Option String
id_of name absent = none
id_of name (by_name id) = some id
id_of name (expanded a) = some (name a)

abbrev pub or_code : {W F A : Type 0} → (code : String) → Option A → Async W (StripeError F) A
or_code code none = throw (stripe_error code)
or_code code (some a) = pure a

pub returned_inj :
    {E A : Type 0} {a b : A} → ◌≡◌ {A = Attempt E A} (returned a) (returned b) → a ≡ b
returned_inj h = cc

pub threw_ne : {E A : Type 0} {e : E} {a : A} → ◌≡◌ {A = Attempt E A} (threw e) (returned a) → ⊥
threw_ne h = cc

pub coded-returned :
    {W F A : Type 0} (code : String) (p : Attempt F A × W) (a : A) (w : W)
    → coded code p ≡ (returned a, w)
    → p ≡ (returned a, w)
coded-returned code (returned b, v) a w h =
    ap₂ (λ x y. (returned x, y)) (returned_inj (ap (λ z. z.0) h)) (ap (λ z. z.1) h)
coded-returned code (threw e, v) a w h = absurd (threw_ne (ap (λ z. z.0) h))

pub uncaught-returned :
    {W F A : Type 0} (p : Attempt F A × W) (a : A) (w : W)
    → uncaught p ≡ (returned a, w)
    → p ≡ (returned a, w)
uncaught-returned (returned b, v) a w h =
    ap₂ (λ x y. (returned x, y)) (returned_inj (ap (λ z. z.0) h)) (ap (λ z. z.1) h)
uncaught-returned (threw e, v) a w h = absurd (threw_ne (ap (λ z. z.0) h))

-- What a call that returned went through.
pub proceed-went :
    {W E A B : Type 0} (p : Attempt E A × W) (f : A → Async W E B) (b : B) (w : W)
    → proceed f p ≡ (returned b, w)
    → (a : A) × (v : W) × (p ≡ (returned a, v)) × (f a v ≡ (returned b, w))
proceed-went (returned a, v) f b w h = (a, v, refl, h)
proceed-went (threw e, v) f b w h = absurd (threw_ne (ap (λ z. z.0) h))
