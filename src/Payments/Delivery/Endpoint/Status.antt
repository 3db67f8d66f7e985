-- ===== src/Payments/Delivery/Endpoint/Status.antt =====
-- What the Stripe endpoint answers, and what it does to the application.
use theokit_plugins.Common.{String, Bool, true, false, ◌≡◌, refl, ap, ◌∙◌}
use theokit_plugins.Common.Async.{Attempt, returned, threw, proceed, pure}
use theokit_plugins.Payments.Store.{IdempotencyStore}
use theokit_plugins.Payments.Store.Laws.{Honours}
use theokit_plugins.Payments.Registry.{Registry, dispatch}
use theokit_plugins.Payments.Delivery.{World, DispatchOutcome, run_idempotently}
use theokit_plugins.Payments.Delivery.Cycle.{expected, run_idempotently-Meets}
use theokit_plugins.Payments.Delivery.Endpoint.{
  SignatureError, StripeEvent, dispatched, Delivered, Response, received, signature_refused,
  handler_failed, to_response, verify_and_parse_webhook, after_parse, process_webhook, handle,
}

-- The specification: 400 for a request that is not verified, and nothing runs; 200 for an event
-- that was handled before, and nothing runs; otherwise the handlers run, and the status is 200 if
-- all of them returned and 500 if one threw.
abbrev pub handled : {H F : Type 0} → String → Bool → Attempt F (Unit {0}) × H → H → Response × H
handled id true p app = (record { status = 200; body = received id true }, app)
handled id false (returned _, h) app = (record { status = 200; body = received id false }, h)
handled id false (threw e, h) app = (record { status = 500; body = handler_failed id }, h)

abbrev pub answer :
    {R H F : Type 0}
    → Attempt SignatureError (StripeEvent R)
    → (String → Bool)
    → (StripeEvent R → Attempt F (Unit {0}) × H)
    → H
    → Response × H
answer (threw e) claimed run app =
    (record { status = 400; body = signature_refused e.message }, app)
answer (returned event) claimed run app = handled event.id (claimed event.id) (run event) app

expected-handled :
    {H F : Type 0} (id : String) (held : Bool) (p : Attempt F (Unit {0}) × H) (app : H)
    (claims : String → Bool)
    → (to_response (dispatched (expected id held p app claims).0) ≡ (handled id held p app).0)
      × ((expected id held p app claims).1 ≡ (handled id held p app).1)
unfolding to_response
expected-handled id true p app claims = (refl, refl)
expected-handled id false (returned _, h) app claims = (refl, refl)
expected-handled id false (threw e, h) app claims = (refl, refl)

finish :
    {S H E : Type 0} (p : Attempt E DispatchOutcome × World S H) {o : DispatchOutcome}
    → p.0 ≡ returned o
    → proceed (λ result. pure (to_response result)) (proceed (λ x. pure (dispatched x)) p)
      ≡ (returned (to_response (dispatched o)), p.1)
finish (returned x, w) h = cc
finish (threw e, w) h = cc

module _ {R S H E F : Type 0}
    (construct_event : (body signature secret : String) → Attempt String (StripeEvent R))
    (store : IdempotencyStore S E) {claimed : S → String → Bool} (honours : Honours store claimed)
    (registry : Registry (StripeEvent R) H F) where
  after_parse-answer :
      (parsed : Attempt SignatureError (StripeEvent R)) (w : World S H)
      → let end =
          proceed
            (λ result. pure (to_response result))
            (after_parse construct_event store registry parsed w) in
        let spec =
          answer parsed
            (claimed w.store)
            (λ event. dispatch event.type registry event w.app)
            w.app in
        ((end.0 ≡ returned spec.0) × (end.1.app ≡ spec.1))
  unfolding after_parse to_response
  after_parse-answer (threw e) w = (refl, refl)
  after_parse-answer (returned event) w =
      let run = dispatch event.type registry event in
      let m = run_idempotently-Meets store honours event.id run w in
      let done = finish (run_idempotently store event.id run w) m.outcome in
      let (same, app) =
        expected-handled event.id (claimed w.store event.id) (run w.app) w.app (claimed w.store) in
      (ap (λ p. p.0) done ∙ ap returned same, ap (λ p. p.1.app) done ∙ m.app ∙ app)

  -- The endpoint answers as the specification says and leaves the application in the state that it
  -- says: 400 with nothing run for a request that is not verified, 200 with nothing run for an
  -- event handled before, and otherwise 200 or 500 by whether every handler returned. The body of
  -- a 500 names the event and nothing of what was thrown.
  pub handle-answer :
      (d : Delivered) (secret : String) (w : World S H)
      → let end = handle construct_event store registry d secret w in
        let spec =
          answer
            (verify_and_parse_webhook construct_event d secret)
            (claimed w.store)
            (λ event. dispatch event.type registry event w.app)
            w.app in
        ((end.0 ≡ returned spec.0) × (end.1.app ≡ spec.1))
  unfolding handle process_webhook
  handle-answer d secret w =
      after_parse-answer (verify_and_parse_webhook construct_event d secret) w
