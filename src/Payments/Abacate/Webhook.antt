-- ===== src/Payments/Abacate/Webhook.antt =====
-- packages/plugin-payments/src/providers/abacatepay.ts, `verifyWebhook`. The HMAC (in base 64),
-- the `webhookSecret` parameter of a URL and `JSON.parse` are parameters; texts have no lone
-- surrogates, so that two of them are equal exactly if their bytes in UTF-8 are.
pub mod Trust
use theokit_plugins.Common.{
  ℕ, String, Bool, true, false, Option, none, some, List, [], ◌∷◌, if◌then◌else◌, ◌&&◌, ◌||◌, any,
  nat_beq, ◌==◌, string_eq,
}
use theokit_plugins.Common.Assoc.{Assoc, get}
use theokit_plugins.Common.Async.{Attempt, returned, threw}
use theokit_plugins.Common.Text.{byte_length}
use theokit_plugins.Payments.Abacate.{
  Field, Object, Parsed, not_json, json_null, json, ProviderError, provider_error,
  webhook_signature_error, type_error, Options, Answer, text,
}
use theokit_plugins.Payments.Abacate.Charges.{text_or, is_empty}

-- `WebhookRequest`
pub record WebhookRequest : Type 0 where
  pub raw_body : String
  pub headers : Assoc String String
  pub url : Option String

-- The type of an event. `EVENT_MAP` is an object literal, so that it also answers for the names
-- that every object inherits, with a value that is no type.
pub data EventType : Type 0 where
  checkout_completed checkout_expired payment_failed : EventType
  payment_refunded payment_disputed unknown_type : EventType
  inherited_value : (name : String) → EventType

pub record WebhookEvent : Type 0 where
  pub type : EventType
  pub id : String
  pub provider_event_type : String

abbrev pub event_map : Assoc String EventType
event_map =
    ("checkout.completed", checkout_completed)
    ∷ ("transparent.completed", checkout_completed)
    ∷ ("checkout.refunded", payment_refunded)
    ∷ ("transparent.refunded", payment_refunded)
    ∷ ("checkout.disputed", payment_disputed)
    ∷ ("transparent.disputed", payment_disputed)
    ∷ []

-- What an object inherits from `Object.prototype`.
abbrev pub inherited_names : List String
inherited_names =
    "constructor" ∷ "__proto__" ∷ "__defineGetter__" ∷ "__defineSetter__" ∷ "__lookupGetter__"
    ∷ "__lookupSetter__" ∷ "hasOwnProperty" ∷ "isPrototypeOf" ∷ "propertyIsEnumerable"
    ∷ "toLocaleString" ∷ "toString" ∷ "valueOf" ∷ []

abbrev pub or_inherited : String → Option EventType → EventType
or_inherited name (some t) = t
or_inherited name none =
    if any (λ n. n == name) inherited_names then inherited_value name else unknown_type

-- `EVENT_MAP[providerEventType] ?? 'unknown'`
unfoldable pub event_type : String → EventType
event_type name = or_inherited name (get name event_map)

-- `a ?? b`
abbrev pub first_of : Option String → Option String → Option String
first_of (some a) b = some a
first_of none b = b

unfoldable pub header : (lower capital : String) → Assoc String String → Option String
header lower capital headers = first_of (get lower headers) (get capital headers)

-- `constantTimeEquals`
unfoldable pub constant_time_equals : String → String → Bool
constant_time_equals a b = nat_beq (byte_length a) (byte_length b) && a == b

-- An option that is there and not empty.
abbrev pub given : Option String → Option String
given none = none
given (some s) = if is_empty s then none else some s

module _ {F : Type 0} (hmac : (key body : String) → String)
    (url_secret : String → Attempt F (Option String)) (parse_object : String → Parsed Object) where
  -- `fromQuery`; a URL that does not parse throws, with a secret in a header or without.
  abbrev pub of_url : Attempt F (Option String) → Answer F (Option String)
  of_url (returned s) = returned s
  of_url (threw e) = threw webhook_signature_error

  abbrev pub query_secret : Option String → Answer F (Option String)
  query_secret none = returned none
  query_secret (some url) = of_url (url_secret url)

  abbrev pub event_of : Parsed Object → Answer F WebhookEvent
  event_of not_json = threw (provider_error "malformed_webhook_body")
  event_of json_null = threw type_error
  event_of (json o) =
      let name = text_or "" (o "event") in
      returned
        (record { type = event_type name; id = text_or "" (o "id"); provider_event_type = name })

  -- The signature, where a key for it is configured.
  unfoldable pub signed : (key : Option String) → (signature : Option String) → String → Bool
  signed none signature body = true
  signed (some key) none body = false
  signed (some key) (some s) body = constant_time_equals (hmac key body) s

  abbrev pub with_secret :
      Options → WebhookRequest → (secret received : String) → Answer F WebhookEvent
  with_secret opts req secret received =
      if constant_time_equals received secret
      then (if signed (given opts.signature_key)
            (given (header "x-webhook-signature" "X-Webhook-Signature" req.headers)) req.raw_body
          then event_of (parse_object req.raw_body)
          else threw webhook_signature_error)
      else threw webhook_signature_error

  abbrev pub if_received :
      Options → WebhookRequest → (secret : String) → Option String → Answer F WebhookEvent
  if_received opts req secret none = threw webhook_signature_error
  if_received opts req secret (some received) = with_secret opts req secret received

  abbrev pub with_query :
      Options
      → WebhookRequest
      → (secret : String) → Answer F (Option String)
      → Answer F WebhookEvent
  with_query opts req secret (threw e) = threw e
  with_query opts req secret (returned q) =
      if_received opts req secret
        (first_of (header "x-webhook-secret" "X-Webhook-Secret" req.headers) q)

  abbrev pub if_configured : Options → WebhookRequest → Option String → Answer F WebhookEvent
  if_configured opts req none = threw (provider_error "missing_webhook_secret")
  if_configured opts req (some secret) = with_query opts req secret (query_secret (given req.url))

  -- `verifyWebhook`
  unfoldable pub verify_webhook : Options → WebhookRequest → Answer F WebhookEvent
  unfolding header constant_time_equals signed event_type
  verify_webhook opts req = if_configured opts req (given opts.webhook_secret)
