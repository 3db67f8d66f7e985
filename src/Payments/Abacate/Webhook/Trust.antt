-- ===== src/Payments/Abacate/Webhook/Trust.antt =====
-- What is known of a request whose verification returns.
use theokit_plugins.Common.{
  String, true, Option, none, some, ◌≡◌, ◌↔◌, refl, arith, inl, inr, Bool-cases, string_eq, ap, ◌∙◌,
}
use theokit_plugins.Common.Async.{Attempt, returned, threw}
use theokit_plugins.Common.Text.{byte_length}
use theokit_plugins.Payments.Abacate.{Object, Parsed, not_json, json_null, json, Options, Answer}
use theokit_plugins.Payments.Abacate.Charges.{text_or, is_empty}
use theokit_plugins.Payments.Abacate.Webhook.{
  WebhookRequest, WebhookEvent, event_type, first_of, header, constant_time_equals, given,
  query_secret, event_of, signed, with_secret, if_received, with_query, if_configured,
  verify_webhook,
}

pub constant_time_equals_iff : (a b : String) → (constant_time_equals a b ≡ true) ↔ (a ≡ b)
unfolding constant_time_equals
constant_time_equals_iff a b = (
  (λ h. ground (arith, string_eq.beq_iff a b)),
  (λ e. ground (arith, string_eq.beq_iff a b, ap byte_length e)),
)

module _ {F : Type 0} (hmac : (key body : String) → String)
    (url_secret : String → Attempt F (Option String)) (parse_object : String → Parsed Object) where
  -- The secret of the merchant came with the request, in the header or else in the URL; the body
  -- has the signature that is asked for, if any is; and the event is that of the body.
  pub record IsTrusted (opts : Options) (req : WebhookRequest) (event : WebhookEvent) : Type 0 where
    pub secret : String
    pub query : Option String
    pub body : Object
    pub configured : given opts.webhook_secret ≡ some secret
    pub read : query_secret hmac url_secret parse_object (given req.url) ≡ returned query
    pub received :
        first_of (header "x-webhook-secret" "X-Webhook-Secret" req.headers) query ≡ some secret
    pub intact :
        (key : String)
        → given opts.signature_key ≡ some key
        → header "x-webhook-signature" "X-Webhook-Signature" req.headers
          ≡ some (hmac key req.raw_body)
    pub parsed : parse_object req.raw_body ≡ json body
    pub named : event.provider_event_type ≡ text_or "" (body "event")
    pub typed : event.type ≡ event_type event.provider_event_type
    pub identified : event.id ≡ text_or "" (body "id")

  event_of-returned :
      (p : Parsed Object) (event : WebhookEvent)
      → event_of hmac url_secret parse_object p ≡ returned event
      → (body : Object) × (p ≡ json body)
        × (event.provider_event_type ≡ text_or "" (body "event"))
        × (event.type ≡ event_type event.provider_event_type)
        × (event.id ≡ text_or "" (body "id"))
  event_of-returned not_json event h = cc
  event_of-returned json_null event h = cc
  event_of-returned (json o) event h =
      let name = text_or "" (o "event") in
      let e : ◌≡◌ {A = WebhookEvent}
          (record { type = event_type name; id = text_or "" (o "id"); provider_event_type = name })
          event =
        ground arith in
      rw (← e) (o, refl, refl, refl, refl)

  signed-true :
      (key signature : Option String) (body : String)
      → signed hmac url_secret parse_object key (given signature) body ≡ true
      → (k : String) → key ≡ some k
      → signature ≡ some (hmac k body)
  unfolding signed
  signed-true none signature body h k e = cc
  signed-true (some j) none body h k e = cc
  signed-true (some j) (some s) body h k e = elim (Bool-cases (is_empty s)) [
    | inl empty ↦ absurd (ground arith)
    | inr full ↦ ground (arith, constant_time_equals_iff (hmac j body) s)
  ]

  secret-IsTrusted :
      (opts : Options) (req : WebhookRequest) (secret received : String) (query : Option String)
      (event : WebhookEvent)
      → given opts.webhook_secret ≡ some secret
      → query_secret hmac url_secret parse_object (given req.url) ≡ returned query
      → first_of (header "x-webhook-secret" "X-Webhook-Secret" req.headers) query ≡ some received
      → with_secret hmac url_secret parse_object opts req secret received ≡ returned event
      → IsTrusted opts req event
  secret-IsTrusted opts req secret received query event configured read there h =
      elim (Bool-cases (constant_time_equals received secret)) [
        | inr wrong ↦ absurd (ground arith)
        | inl right ↦
            elim (Bool-cases (
              signed hmac url_secret parse_object (given opts.signature_key)
                (given (header "x-webhook-signature" "X-Webhook-Signature" req.headers))
                req.raw_body)) [
                  | inr forged ↦ absurd (ground arith)
                  | inl intact ↦
                      let (body, parsed, named, typed, identified) =
                        event_of-returned (parse_object req.raw_body) event
                          (rw (right, intact) at h) in
                      record {
                        secret = secret;
                        query = query;
                        body = body;
                        configured = configured;
                        read = read;
                        received =
                            there ∙ ap some ((constant_time_equals_iff received secret).0 right);
                        intact =
                            signed-true (given opts.signature_key)
                              (header "x-webhook-signature" "X-Webhook-Signature" req.headers)
                              req.raw_body intact;
                        parsed = parsed;
                        named = named;
                        typed = typed;
                        identified = identified;
                      }
                ]
      ]

  received-IsTrusted :
      (opts : Options) (req : WebhookRequest) (secret : String) (query o : Option String)
      (event : WebhookEvent)
      → given opts.webhook_secret ≡ some secret
      → query_secret hmac url_secret parse_object (given req.url) ≡ returned query
      → first_of (header "x-webhook-secret" "X-Webhook-Secret" req.headers) query ≡ o
      → if_received hmac url_secret parse_object opts req secret o ≡ returned event
      → IsTrusted opts req event
  received-IsTrusted opts req secret query none event configured read there h = cc
  received-IsTrusted opts req secret query (some r) event configured read there h =
      secret-IsTrusted opts req secret r query event configured read there h

  query-IsTrusted :
      (opts : Options) (req : WebhookRequest) (secret : String) (q : Answer F (Option String))
      (event : WebhookEvent)
      → given opts.webhook_secret ≡ some secret
      → query_secret hmac url_secret parse_object (given req.url) ≡ q
      → with_query hmac url_secret parse_object opts req secret q ≡ returned event
      → IsTrusted opts req event
  query-IsTrusted opts req secret (threw e) event configured read h = cc
  query-IsTrusted opts req secret (returned query) event configured read h =
      received-IsTrusted opts req secret query _ event configured read refl h

  configured-IsTrusted :
      (opts : Options) (req : WebhookRequest) (s : Option String) (event : WebhookEvent)
      → given opts.webhook_secret ≡ s
      → if_configured hmac url_secret parse_object opts req s ≡ returned event
      → IsTrusted opts req event
  configured-IsTrusted opts req none event configured h = cc
  configured-IsTrusted opts req (some secret) event configured h =
      query-IsTrusted opts req secret _ event configured refl h

  -- A request is verified only if it carries the merchant's secret, and the signature where a key
  -- for it is configured; the event has the id, the name and the type that its body gives.
  pub verify_webhook-IsTrusted :
      (opts : Options) (req : WebhookRequest) (event : WebhookEvent)
      → verify_webhook hmac url_secret parse_object opts req ≡ returned event
      → IsTrusted opts req event
  unfolding verify_webhook
  verify_webhook-IsTrusted opts req event h =
      configured-IsTrusted opts req (given opts.webhook_secret) event refl h
