-- ===== src/Copilot/Run/Money.antt =====
-- A run gives its hold back on every path: the body, the `catch` and the `finally` of `runAgent`,
-- whether the calls in them return or throw.
use theokit_plugins.Common.{ℤ, pos, Bool-cases, inl, inr, ℕ, suc, String, Option, List, true, false}
use theokit_plugins.Common.Async.{
  Async, caught, throw, Keeps, Keeps-proceed, Keeps-bind, Keeps-caught, Keeps-then_keep,
}
use theokit_plugins.Copilot.Budget.{
  Sdk, PerRoom, BudgetError, BudgetReservation, Bridge, release, reconcile,
}
use theokit_plugins.Copilot.Prompt.{Action}
use theokit_plugins.Copilot.Run.{
  partial, complete, Stream, ended, failed, yielded, non_empty, RunError, Turn, Heard, Setup,
  consume, conclude, invoke, fail, wind_up, with_reservation, announce, announced, start_typing,
  listen, answer, heard_nothing, typing, given, free_hold, tell_error, tell_and_throw,
}

-- A predicate of the money and the reservation.
abbrev pub OfMoney :
    (P : Type 0) {S : Type 0} → ((Bridge × S) × BudgetReservation → Type 0) → Turn P S → Type 0
OfMoney P I t = I (t.money, t.reservation)

-- A call that settles takes a state of `I` to one of `D`.
abbrev pub Settles :
    {S E : Type 0} (I D : (Bridge × S) × BudgetReservation → Type 0)
    → (BudgetReservation → Async (Bridge × S) (BudgetError E) Unit × BudgetReservation)
    → Type 0
Settles {S} I D f =
    (money : Bridge × S) (r : BudgetReservation) → I (money, r) → D (((f r).0 money).1, (f r).1)

module _ {P S E F : Type 0} (sdk : Sdk S E) (config : Option PerRoom) (setup : Setup P E F)
    (I : (Bridge × S) × BudgetReservation → Type 0) where
  announce-Keeps :
      (action : Action) (said : String)
      → Keeps (OfMoney P I) (announce sdk config setup action said)
  announce-Keeps action said t h = Keeps-proceed (OfMoney P I) _ _ h (λ u t' h'. h')

  pub announced-Keeps :
      (action : Action) (said : String)
      → Keeps (OfMoney P I) (announced sdk config setup action said)
  announced-Keeps action said t h = elim (Bool-cases (non_empty said)) [
    | inl some_text ↦ rw some_text (announce-Keeps action said t h)
    | inr no_text ↦ rw no_text h
  ]

  consume-Keeps :
      (s : Stream F) (n : ℕ) (heard : Heard)
      → Keeps (OfMoney P I) (consume sdk config setup s n heard)
  unfolding consume
  consume-Keeps ended n heard t h = h
  consume-Keeps (failed e) n heard t h = h
  consume-Keeps (yielded partial rest) n heard t h =
      Keeps-proceed (OfMoney P I) _ _ h (λ u. consume-Keeps rest (suc n) heard)
  consume-Keeps (yielded (complete o usage) rest) n heard t h = consume-Keeps rest n _ t h

  module _ (charges : (actual : ℤ) → Settles I I (λ r. reconcile sdk config r actual))
      (D : (Bridge × S) × BudgetReservation → Type 0)
      (weaker : (x : (Bridge × S) × BudgetReservation) → D x → I x)
      (frees : Settles I D (λ r. release sdk config r)) where
    conclude-Keeps :
        (action : Action) (heard : Heard)
        → Keeps (OfMoney P I) (conclude sdk config setup action heard)
    unfolding conclude
    conclude-Keeps action heard t h =
        Keeps-proceed (OfMoney P I) _ _
          (charges (pos heard.actual_cost_usd) t.money t.reservation h)
          (λ u. announced-Keeps action heard.final_text)

    invoke-Keeps :
        (prompt : List ℕ) (action : Action)
        → Keeps (OfMoney P I) (invoke sdk config setup prompt action)
    unfolding invoke
    invoke-Keeps prompt action =
        Keeps-bind (OfMoney P I) (start_typing sdk config setup)
          (answer sdk config setup prompt action)
          (Keeps-bind (OfMoney P I) (typing sdk config setup true)
            (λ u. given sdk config setup setup.api_key) (λ t h. h) (λ u t h. h))
          (λ key.
            Keeps-bind (OfMoney P I) (listen sdk config setup prompt key)
              (conclude sdk config setup action)
              (consume-Keeps (setup.stream_object prompt key) 0 (heard_nothing sdk config setup))
              (conclude-Keeps action))

    fail-Keeps : (e : RunError E F) → Keeps (OfMoney P I) (fail sdk config setup e)
    unfolding fail
    fail-Keeps e =
        Keeps-bind (OfMoney P I) (free_hold sdk config setup)
          (λ u. tell_and_throw sdk config setup e) (λ t h. weaker _ (frees t.money t.reservation h))
          (λ u.
            Keeps-bind (OfMoney P I) (tell_error sdk config setup e) (λ v. throw e) (λ t h. h)
              (λ v t h. h))

    wind_up-Frees : (t : Turn P S) → OfMoney P I t → OfMoney P D (wind_up sdk config setup t).1
    unfolding wind_up
    wind_up-Frees t h =
        Keeps-proceed (OfMoney P D) (free_hold sdk config setup t)
          (λ u. typing sdk config setup false) (frees t.money t.reservation h) (λ u t' h'. h')

    -- Whatever happens in between, the `finally` sees the hold given back.
    pub with_reservation-Frees :
        (prompt : List ℕ) (action : Action) (t : Turn P S)
        → OfMoney P I t
        → OfMoney P D (with_reservation sdk config setup prompt action t).1
    unfolding with_reservation
    with_reservation-Frees prompt action t h =
        let body = invoke sdk config setup prompt action t in
        let (r, t') = caught (fail sdk config setup) body in
        Keeps-then_keep (OfMoney P D) r (wind_up sdk config setup t') (
          wind_up-Frees t' (
            Keeps-caught (OfMoney P I) body (fail sdk config setup) (invoke-Keeps prompt action t h)
              fail-Keeps))
