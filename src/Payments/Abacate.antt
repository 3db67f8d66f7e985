-- ===== src/Payments/Abacate.antt =====
-- packages/plugin-payments/src/providers/abacatepay.ts, the request to the gateway, with what it
-- takes of provider-types.ts. `fetch` over a world `W` and the parsing of a body are parameters;
-- messages of errors and untouched answers (`raw`) are left out; amounts are whole numbers.
pub mod Answers
pub mod Charges
pub mod Webhook
use theokit_plugins.Common.{
  ℕ, ℤ, String, Bool, true, false, Option, none, some, List, if◌then◌else◌, ◌≡◌,
}
use theokit_plugins.Common.Assoc.{Assoc}
use theokit_plugins.Common.Async.{Attempt, Async, returned, threw, proceed}

-- A field of a parsed object.
pub data Field : Type 0 where
  undefined null other : Field
  text : String → Field
  number : ℤ → Field

abbrev pub Object : Type 0
Object = (name : String) → Field

-- `JSON.parse`, of an envelope: `data` is `none` if it is null or undefined.
pub record Envelope : Type 0 where
  pub error : Field
  pub data_field : Option Object

pub data Parsed (A : Type 0) : Type 0 where
  not_json json_null : Parsed A
  json : A → Parsed A

-- `Response`
pub record Response (F : Type 0) : Type 0 where
  pub ok : Bool
  pub text : Attempt F String

pub record CheckoutItem : Type 0 where
  pub ref : String
  pub quantity : ℤ

-- The bodies of requests; a field that is left out is `none`.
pub data Payload : Type 0 where
  no_body : Payload
  checkout :
      (items : List CheckoutItem)
      → (methods : Option (List String)) → (completion_url return_url customer_id : Option String)
      → (metadata : Option (Assoc String String)) → Payload
  pix :
      (amount : ℤ)
      → (description : Option String) → (expires_in : Option ℤ)
      → (customer metadata : Option (Assoc String String)) → Payload
  by_id : (id : String) → (reason : Option String) → Payload

pub data Method : Type 0 where
  get_method post_method : Method

pub record Call : Type 0 where
  pub method : Method
  pub path : String
  pub payload : Payload

-- `PaymentProviderError` with its code, `WebhookSignatureError`, the language's `TypeError`, and
-- what `text()` rejects with.
pub data ProviderError (F : Type 0) : Type 0 where
  provider_error : (code : String) → ProviderError F
  webhook_signature_error type_error : ProviderError F
  of_body : F → ProviderError F

abbrev pub is_null : Field → Bool
is_null undefined = true
is_null null = true
is_null other = false
is_null (text s) = false
is_null (number n) = false

abbrev pub Answer : Type 0 → Type 0 → Type 0
Answer F A = Attempt (ProviderError F) A

-- `AbacatePayProviderOptions`, without what `fetch` takes.
pub record Options : Type 0 where
  pub webhook_secret : Option String
  pub signature_key : Option String
  pub methods : Option (List String)

module _ {W F : Type 0} (do_fetch : Call → W → Attempt F (Response F) × W)
    (parse_envelope : String → Parsed Envelope) where
  abbrev pub data_or_error : (code : String) → Option Object → Answer F Object
  data_or_error code none = threw (provider_error code)
  data_or_error code (some o) = returned o

  abbrev pub of_envelope : (ok : Bool) → (code : String) → Parsed Envelope → Answer F Object
  of_envelope ok code not_json = threw (provider_error code)
  of_envelope ok code json_null = threw type_error
  of_envelope false code (json e) = threw (provider_error code)
  of_envelope true code (json e) =
      if is_null e.error then data_or_error code e.data_field else threw (provider_error code)

  abbrev pub of_text : (ok : Bool) → (code : String) → Attempt F String → Answer F Object
  of_text ok code (returned t) = of_envelope ok code (parse_envelope t)
  of_text ok code (threw e) = threw (of_body e)

  abbrev pub of_response : (code : String) → Attempt F (Response F) → Answer F Object
  of_response code (returned r) = of_text r.ok code r.text
  of_response code (threw e) = threw (provider_error "network_error")

  -- `request`
  unfoldable pub request : Call → (code : String) → Async W (ProviderError F) Object
  request call code w = let (r, w') = do_fetch call w in (of_response code r, w')
