-- ===== src/Payments/Delivery/Cycle.antt =====
-- What one delivery does, over any store that honours the contract of the claims.
use theokit_plugins.Common.{
  String, Bool, true, false, not, ◌≡◌, refl, ◌∙◌, ap, ◌==◌, if◌then◌else◌, string_eq, arith,
  Bool-cases, inl, inr, beq_self,
}
use theokit_plugins.Common.Async.{
  Attempt, Async, returned, threw, proceed-returned, attempt, pure, ◌>>=◌,
}
use theokit_plugins.Payments.Store.{IdempotencyStore}
use theokit_plugins.Payments.Store.Laws.{Honours}
use theokit_plugins.Payments.Delivery.{
  World, on_store, on_app, ok, handler_error, DispatchOutcome, handlers_failed, after_dispatch,
  run_idempotently,
}

-- The specification of one delivery: the outcome, the application's state and the claims
-- afterwards, from the claim before, the handlers' run, the state and the claims before.
abbrev pub expected :
    {H F : Type 0}
    → String
    → Bool
    → Attempt F (Unit {0}) × H
    → H
    → (String → Bool)
    → DispatchOutcome × H × (String → Bool)
expected event_id true (r, h) app claims = (ok event_id true, app, claims)
expected event_id false (returned _, h) app claims =
    (ok event_id false, h, λ j. if event_id == j then true else claims j)
expected event_id false (threw e, h) app claims =
    (handler_error event_id handlers_failed, h, claims)

module _ {H F : Type 0} (event_id : String) (app : H) (claims : String → Bool) where
  expected-success :
      (held : Bool) (p : Attempt F (Unit {0}) × H)
      → held ≡ false
      → p.0 ≡ returned tt
      → ((expected event_id held p app claims).1 ≡ p.1)
        × ((expected event_id held p app claims).2 event_id ≡ true)
  expected-success true p free good = cc
  expected-success false (returned tt, h) free good = (refl, rw (beq_self event_id))
  expected-success false (threw e, h) free good = cc

  expected-failure :
      (held : Bool) (p : Attempt F (Unit {0}) × H) {e : F}
      → held ≡ false
      → p.0 ≡ threw e
      → ((expected event_id held p app claims).1 ≡ p.1)
        × ((expected event_id held p app claims).2 ≡ claims)
  expected-failure true p free bad = cc
  expected-failure false (returned tt, h) free bad = cc
  expected-failure false (threw e, h) free bad = (refl, refl)

  expected-held :
      (held : Bool) (p : Attempt F (Unit {0}) × H)
      → held ≡ true
      → ((expected event_id held p app claims).0 ≡ ok event_id true)
        × ((expected event_id held p app claims).1 ≡ app)
  expected-held true p old = (refl, refl)
  expected-held false p old = cc

  expected-free :
      (held : Bool) (p : Attempt F (Unit {0}) × H)
      → held ≡ false
      → (expected event_id held p app claims).1 ≡ p.1
  expected-free true p free = cc
  expected-free false (returned tt, h) free = refl
  expected-free false (threw e, h) free = refl

-- An end of a delivery that meets a specification.
pub record Meets {S H E : Type 0} (claimed : S → String → Bool)
    (end : Attempt E DispatchOutcome × World S H) (spec : DispatchOutcome × H × (String → Bool))
    : Type 0 where
  pub outcome : end.0 ≡ returned spec.0
  pub app : end.1.app ≡ spec.1
  pub claims : (j : String) → claimed end.1.store j ≡ spec.2 j

module _ {S H E F : Type 0} (store : IdempotencyStore S E) {claimed : S → String → Bool}
    (honours : Honours store claimed) where
  run_idempotently-marked :
      (event_id : String) (run : Async H F (Unit {0})) (w : World S H)
      → run_idempotently store event_id run w
        ≡ (if not (claimed w.store event_id)
              then (attempt (on_app run) >>= after_dispatch store event_id)
              else pure (ok event_id true))
            (record w { store = (store.mark_processed event_id w.store).1 })
  unfolding run_idempotently
  run_idempotently-marked event_id run w =
      proceed-returned (on_store (store.mark_processed event_id) w)
        (λ is_new.
          if is_new
          then (attempt (on_app run) >>= after_dispatch store event_id)
          else pure (ok event_id true))
        (honours.answers event_id w.store)

  -- The end of a dispatch that ran with the claim held.
  after_dispatch-Meets :
      (event_id : String) (w : World S H) (claims : String → Bool) (r : Attempt F (Unit {0}))
      (app : H)
      → claims event_id ≡ false
      → ((j : String) → claimed w.store j ≡ (if event_id == j then true else claims j))
      → Meets claimed
          (after_dispatch store event_id r w)
          (expected event_id false (r, w.app) app claims)
  unfolding after_dispatch
  after_dispatch-Meets event_id w claims (returned tt) app free held = record {
    outcome = refl;
    app = refl;
    claims = held;
  }
  after_dispatch-Meets event_id w claims (threw e) app free held = record {
    outcome = refl;
    app = refl;
    claims =
        λ j. ground (arith, honours.drops event_id j w.store, held j, string_eq.beq_iff event_id j);
  }

  -- One delivery does what the specification says, on every branch: an event whose claim is held
  -- is a duplicate and touches nothing; one that is not runs the handlers once, and keeps the
  -- claim if they return; if they throw, the claims are as before, so that a retry runs them
  -- again, and the outcome carries a fixed error that says nothing of what was thrown.
  pub run_idempotently-Meets :
      (event_id : String) (run : Async H F (Unit {0})) (w : World S H)
      → Meets claimed
          (run_idempotently store event_id run w)
          (expected event_id (claimed w.store event_id) (run w.app) w.app (claimed w.store))
  run_idempotently-Meets event_id run w =
      rw (run_idempotently-marked event_id run w) (elim (Bool-cases (claimed w.store event_id)) [
        | inl held ↦ rw held (record {
          outcome = refl;
          app = refl;
          claims =
              λ j. ground (arith, honours.claims event_id j w.store, string_eq.beq_iff event_id j);
        })
        | inr free ↦ rw free (
            after_dispatch-Meets event_id
              (record { store = (store.mark_processed event_id w.store).1; app = (run w.app).1 })
              (claimed w.store) (run w.app).0 w.app free (λ j. honours.claims event_id j w.store))
      ])

  -- After a delivery whose handlers returned, the next delivery of the event is a duplicate that
  -- leaves the application as those handlers left it, whatever it would have run.
  pub run_idempotently-redelivered :
      (event_id : String) (run again : Async H F (Unit {0})) (w : World S H)
      → claimed w.store event_id ≡ false
      → (run w.app).0 ≡ returned tt
      → ((run_idempotently store event_id again (run_idempotently store event_id run w).1).0
          ≡ returned (ok event_id true))
        × ((run_idempotently store event_id again (run_idempotently store event_id run w).1).1.app
            ≡ (run w.app).1)
  run_idempotently-redelivered event_id run again w free good =
      let first = run_idempotently-Meets event_id run w in
      let w' = (run_idempotently store event_id run w).1 in
      let second = run_idempotently-Meets event_id again w' in
      let (app, kept) = expected-success event_id w.app (claimed w.store) _ (run w.app) free good in
      let (outcome, same) =
        expected-held event_id w'.app (claimed w'.store) _ (again w'.app)
          (first.claims event_id ∙ kept) in
      (second.outcome ∙ ap returned outcome, second.app ∙ same ∙ first.app ∙ app)

  -- After a delivery whose handlers threw, the next delivery of the event runs its handlers, on
  -- the state that the failed ones left.
  pub run_idempotently-retried :
      (event_id : String) (run again : Async H F (Unit {0})) (w : World S H) {e : F}
      → claimed w.store event_id ≡ false
      → (run w.app).0 ≡ threw e
      → (run_idempotently store event_id again (run_idempotently store event_id run w).1).1.app
        ≡ (again (run w.app).1).1
  run_idempotently-retried event_id run again w free bad =
      let first = run_idempotently-Meets event_id run w in
      let w' = (run_idempotently store event_id run w).1 in
      let second = run_idempotently-Meets event_id again w' in
      let (app, kept) = expected-failure event_id w.app (claimed w.store) _ (run w.app) free bad in
      let released = first.claims event_id ∙ ap (λ c. c event_id) kept ∙ free in
      second.app
      ∙ expected-free event_id w'.app (claimed w'.store) _ (again w'.app) released
      ∙ ap (λ h. (again h).1) (first.app ∙ app)
