-- ===== src/Copilot/Run/Charge.antt =====
-- What a run is charged: nothing or one settled amount, and that amount if it returns.
use theokit_plugins.Common.{
  ℕ, suc, String, Option, some, List, ◌≡◌, refl, arith, Bool, true, false, ◌⊎◌, inl, inr,
}
use theokit_plugins.Common.Async.{
  Attempt, returned, threw, caught, throw, Keeps, Keeps-bind, Ends, Ends-state, Ends-proceed,
  Ends-weaker, Ends-caught, Ends-finally,
}
use theokit_plugins.Common.Text.{codes}
use theokit_plugins.Copilot.Name.{budget_name_for}
use theokit_plugins.Copilot.Budget.{
  Sdk, IsNamed, PerRoom, BudgetError, BudgetReservation, Bridge, Name, release, reconcile, reserve,
  reservation,
}
use theokit_plugins.Copilot.Budget.Reserve.{reserve-IsOutcome, IsOutcome}
use theokit_plugins.Copilot.Cost.{settle_cost}
use theokit_plugins.Copilot.Prompt.{Action, frame_prompt}
use theokit_plugins.Copilot.Run.{
  partial, complete, Stream, ended, failed, yielded, RunError, amount_or, Turn, Session, Heard,
  Setup, consume, conclude, invoke, fail, wind_up, with_reservation, announced, start_typing,
  listen, answer, heard_nothing, typing, charge, free_hold, tell_and_throw, tell_error,
  type_progress, run_agent, after_reserve, session_of, given,
}
use theokit_plugins.Copilot.Run.Money.{OfMoney, announced-Keeps}
use theokit_plugins.Copilot.Run.Holds.{release-again}

module _ {P S E F : Type 0} (sdk : Sdk S E) (per : PerRoom) (setup : Setup P E F) where
  -- What the last completion that could be priced costs, or the estimate.
  abbrev pub cost_of : Stream F → ℕ → ℕ
  cost_of ended usd = usd
  cost_of (failed e) usd = usd
  cost_of (yielded partial rest) usd = cost_of rest usd
  cost_of (yielded (complete o usage) rest) usd =
      cost_of rest (amount_or usd (settle_cost setup.compute_cost usage setup.model).amount_usd)

  abbrev pub after_charge : (prompt : List ℕ) → Name → S → Option String → S
  after_charge prompt n spent key =
      (sdk.charge_and_check_thresholds n
        (cost_of (setup.stream_object prompt key) setup.estimated_usd) spent).1

  module _ (prompt : List ℕ) (n : Name) (r : BudgetReservation) (spent : S)
      (open_still : r.settled ≡ false)
      (known : budget_name_for r.copilot_id r.room_id ≡ some n) where
    abbrev IsOpen : (Bridge × S) × BudgetReservation → Type 0
    IsOpen (money, q) = (q ≡ r) × (money.1 ≡ spent)

    abbrev pub IsSpared : (Bridge × S) × BudgetReservation → Type 0
    IsSpared (money, q) = (q.settled ≡ true) × (money.1 ≡ spent)

    -- The agent was asked under the key that its configuration gave, and its answer is paid for.
    abbrev pub IsCharged : (Bridge × S) × BudgetReservation → Type 0
    IsCharged (money, q) =
        (q.settled ≡ true)
        × ((key : Option String) × (setup.api_key ≡ returned key)
            × (money.1 ≡ after_charge prompt n spent key))

    abbrev IsHeard : Stream F → ℕ → Heard → Turn P S → Type 0
    IsHeard s usd heard t = OfMoney P IsOpen t × (heard.actual_cost_usd ≡ cost_of s usd)

    consume-Ends :
        (s : Stream F) (chunks : ℕ) (heard : Heard) (t : Turn P S)
        → OfMoney P IsOpen t
        → Ends
            (IsHeard s heard.actual_cost_usd)
            (λ e. OfMoney P IsOpen)
            (consume sdk (some per) setup s chunks heard t)
    unfolding consume
    consume-Ends ended chunks heard t h = (h, refl)
    consume-Ends (failed e) chunks heard t h = h
    consume-Ends (yielded partial rest) chunks heard t h =
        Ends-proceed (IsHeard rest heard.actual_cost_usd) (λ e. OfMoney P IsOpen)
          (type_progress sdk (some per) setup (suc chunks) t)
          (λ u. consume sdk (some per) setup rest (suc chunks) heard)
          (Ends-state (OfMoney P IsOpen) (type_progress sdk (some per) setup (suc chunks) t) h)
          (λ u t' h'. consume-Ends rest (suc chunks) heard t' h') (λ e t' h'. h')
    consume-Ends (yielded (complete o usage) rest) chunks heard t h = consume-Ends rest chunks _ t h

    charge-Ends :
        (key : Option String) (usd : ℕ) (t : Turn P S)
        → OfMoney P IsOpen t
        → setup.api_key ≡ returned key
        → usd ≡ cost_of (setup.stream_object prompt key) setup.estimated_usd
        → OfMoney P IsCharged (charge sdk (some per) setup usd t).1
    unfolding reconcile
    charge-Ends key usd t (here, unspent) asked cost =
        rw (here, open_still, known) (refl, (key, asked, rw (unspent, cost) refl))

    free-Spares :
        (t : Turn P S)
        → OfMoney P IsOpen t
        → OfMoney P IsSpared (free_hold sdk (some per) setup t).1
    unfolding release
    free-Spares t (here, unspent) = rw (here, open_still, known) (refl, unspent)

    free_done :
        (t : Turn P S)
        → t.reservation.settled ≡ true
        → ((free_hold sdk (some per) setup t).1.money ≡ t.money)
          × ((free_hold sdk (some per) setup t).1.reservation ≡ t.reservation)
    free_done t done = rw (release-again sdk (some per) t.reservation done) (refl, refl)

    free-IsCharged :
        (t : Turn P S)
        → OfMoney P IsCharged t
        → OfMoney P IsCharged (free_hold sdk (some per) setup t).1
    free-IsCharged t (done, h) = let (money, q) = free_done t done in rw (money, q) (done, h)

    abbrev pub IsClosed : (Bridge × S) × BudgetReservation → Type 0
    IsClosed x = IsSpared x ⊎ IsCharged x

    abbrev IsEither : Turn P S → Type 0
    IsEither t = OfMoney P IsOpen t ⊎ OfMoney P IsCharged t

    conclude-Ends :
        (action : Action) (key : Option String) (heard : Heard) (t : Turn P S)
        → setup.api_key ≡ returned key
        → IsHeard (setup.stream_object prompt key) setup.estimated_usd heard t
        → Ends
            (λ u. OfMoney P IsCharged)
            (λ e. IsEither)
            (conclude sdk (some per) setup action heard t)
    unfolding conclude
    conclude-Ends action key heard t asked (h, cost) =
        Ends-proceed {Q = λ u. OfMoney P IsCharged} {R = λ e. OfMoney P IsCharged}
          (λ u. OfMoney P IsCharged) (λ e. IsEither)
          (charge sdk (some per) setup heard.actual_cost_usd t)
          (λ u. announced sdk (some per) setup action heard.final_text)
          (Ends-state (OfMoney P IsCharged) (charge sdk (some per) setup heard.actual_cost_usd t)
            (charge-Ends key heard.actual_cost_usd t h asked cost))
          (λ u t' h'.
            Ends-weaker (λ u. OfMoney P IsCharged) (λ e t h. inr h)
              (announced sdk (some per) setup action heard.final_text t')
              (Ends-state (OfMoney P IsCharged)
                (announced sdk (some per) setup action heard.final_text t')
                (announced-Keeps sdk (some per) setup IsCharged action heard.final_text t' h')))
          (λ e t' h'. inr h')

    answer-Ends :
        (action : Action) (key : Option String) (t : Turn P S)
        → setup.api_key ≡ returned key
        → OfMoney P IsOpen t
        → Ends
            (λ u. OfMoney P IsCharged)
            (λ e. IsEither)
            (answer sdk (some per) setup prompt action key t)
    answer-Ends action key t asked h =
        Ends-proceed (λ u. OfMoney P IsCharged) (λ e. IsEither)
          (listen sdk (some per) setup prompt key t) (conclude sdk (some per) setup action)
          (consume-Ends (setup.stream_object prompt key) 0 (heard_nothing sdk (some per) setup) t h)
          (λ heard t' h'. conclude-Ends action key heard t' asked h') (λ e t' h'. inl h')

    IsAsked : Option String → Turn P S → Type 0
    IsAsked key t = (setup.api_key ≡ returned key) × OfMoney P IsOpen t

    given-Ends :
        (k : Attempt F (Option String)) (t : Turn P S)
        → setup.api_key ≡ k
        → OfMoney P IsOpen t
        → Ends IsAsked (λ e. OfMoney P IsOpen) (given sdk (some per) setup k t)
    unfolding IsAsked
    given-Ends (returned key) t e h = (e, h)
    given-Ends (threw d) t e h = h

    start_typing-Ends :
        (t : Turn P S)
        → OfMoney P IsOpen t
        → Ends IsAsked (λ e. OfMoney P IsOpen) (start_typing sdk (some per) setup t)
    start_typing-Ends t h =
        Ends-proceed {Q = λ u. OfMoney P IsOpen} {R = λ e. OfMoney P IsOpen} IsAsked
          (λ e. OfMoney P IsOpen) (typing sdk (some per) setup true t)
          (λ u. given sdk (some per) setup setup.api_key)
          (Ends-state (OfMoney P IsOpen) (typing sdk (some per) setup true t) h)
          (λ u t' h'. given-Ends setup.api_key t' refl h') (λ e t' h'. h')

    invoke-Ends :
        (action : Action) (t : Turn P S)
        → OfMoney P IsOpen t
        → Ends
            (λ u. OfMoney P IsCharged)
            (λ e. IsEither)
            (invoke sdk (some per) setup prompt action t)
    unfolding invoke IsAsked
    invoke-Ends action t h =
        Ends-proceed (λ u. OfMoney P IsCharged) (λ e. IsEither)
          (start_typing sdk (some per) setup t) (answer sdk (some per) setup prompt action)
          (start_typing-Ends t h) (λ key t' h'. answer-Ends action key t' h'.0 h'.1)
          (λ e t' h'. inl h')

    free-Closes :
        (t : Turn P S) → IsEither t → OfMoney P IsClosed (free_hold sdk (some per) setup t).1
    free-Closes t (inl h) = inl (free-Spares t h)
    free-Closes t (inr (done, h)) = inr (free-IsCharged t (done, h))

    free-IsClosed :
        (t : Turn P S)
        → OfMoney P IsClosed t
        → OfMoney P IsClosed (free_hold sdk (some per) setup t).1
    free-IsClosed t (inl (done, h)) =
        let (money, q) = free_done t done in rw (money, q) (inl (done, h))
    free-IsClosed t (inr h) = inr (free-IsCharged t h)

    fail-Ends :
        (e : RunError E F) (t : Turn P S)
        → IsEither t
        → Ends (λ u. OfMoney P IsCharged) (λ e'. OfMoney P IsClosed) (fail sdk (some per) setup e t)
    unfolding fail
    fail-Ends e t h =
        let freed = free_hold sdk (some per) setup t in
        Ends-proceed (λ u. OfMoney P IsCharged) (λ e'. OfMoney P IsClosed) freed
          (λ u. tell_and_throw sdk (some per) setup e)
          (Ends-state (OfMoney P IsClosed) freed (free-Closes t h))
          (λ u t' h'.
            Ends-proceed (λ u. OfMoney P IsCharged) (λ e'. OfMoney P IsClosed)
              (tell_error sdk (some per) setup e t') (λ v. throw e)
              (Ends-state (OfMoney P IsClosed) (tell_error sdk (some per) setup e t') h')
              (λ v t'' h''. h'') (λ d t'' h''. h''))
          (λ d t' h'. h')

    wind_up-Keeps :
        (J : (Bridge × S) × BudgetReservation → Type 0)
        → ((t : Turn P S) → OfMoney P J t → OfMoney P J (free_hold sdk (some per) setup t).1)
        → Keeps (OfMoney P J) (wind_up sdk (some per) setup)
    unfolding wind_up
    wind_up-Keeps J k =
        Keeps-bind (OfMoney P J) (free_hold sdk (some per) setup)
          (λ u. typing sdk (some per) setup false) k (λ u t h. h)

    -- a
    pub with_reservation-Ends :
        (action : Action) (t : Turn P S)
        → OfMoney P IsOpen t
        → Ends
            (λ u. OfMoney P IsCharged)
            (λ e. OfMoney P IsClosed)
            (with_reservation sdk (some per) setup prompt action t)
    unfolding with_reservation
    with_reservation-Ends action t h =
        let body = invoke sdk (some per) setup prompt action t in
        Ends-finally (OfMoney P IsCharged) (OfMoney P IsClosed) (wind_up sdk (some per) setup)
          (caught (fail sdk (some per) setup) body)
          (Ends-caught (λ u. OfMoney P IsCharged) (λ e. OfMoney P IsClosed) body
            (fail sdk (some per) setup) (invoke-Ends action t h) fail-Ends)
          (λ t' h'. inr h') (wind_up-Keeps IsCharged free-IsCharged)
          (wind_up-Keeps IsClosed free-IsClosed)

  -- The state of the budgets after a run whose reservation left them as `spent`: what was asked for
  -- is charged, against the budget of the room.
  abbrev pub IsPaid : (prompt : List ℕ) (n : Name) (spent : S) → Session P S → Type 0
  IsPaid prompt n spent t =
      (key : Option String) × (setup.api_key ≡ returned key)
      × (t.money.1 ≡ after_charge prompt n spent key)

  abbrev pub IsRefusedOrPaid :
      (prompt : List ℕ)
      → Attempt (BudgetError E) BudgetReservation × (Bridge × S)
      → Attempt (RunError E F) Unit × Session P S
      → Type 0
  IsRefusedOrPaid prompt p run =
      ((e : BudgetError E) × (p.0 ≡ threw e) × (run.1.money ≡ p.1))
      ⊎ ((q : BudgetReservation) × (p.0 ≡ returned q)
          × (n : Name) × (budget_name_for (codes setup.copilot.id) (codes setup.copilot.room_id)
              ≡ some n)
          × Ends (λ u. IsPaid prompt n p.1.1) (λ e t. (t.money.1 ≡ p.1.1) ⊎ IsPaid prompt n p.1.1 t)
              run)

  of_turn :
      (prompt : List ℕ) (n : Name) (spent : S) (r : BudgetReservation)
      (open_still : r.settled ≡ false) (known : budget_name_for r.copilot_id r.room_id ≡ some n)
      (q : Attempt (RunError E F) Unit × Turn P S)
      → Ends
          (λ u. OfMoney P (IsCharged prompt n r spent open_still known))
          (λ e. OfMoney P (IsClosed prompt n r spent open_still known))
          q
      → Ends
          (λ u. IsPaid prompt n spent)
          (λ e t. (t.money.1 ≡ spent) ⊎ IsPaid prompt n spent t)
          (session_of sdk (some per) setup q)
  of_turn prompt n spent r open_still known (returned u, t) (done, paid) = paid
  of_turn prompt n spent r open_still known (threw e, t) (inl (done, same)) = inl same
  of_turn prompt n spent r open_still known (threw e, t) (inr (done, paid)) = inr paid

  after_reserve-IsRefusedOrPaid :
      (named_sdk : IsNamed sdk) (prompt : List ℕ) (action : Action) (room : Bool × P) (b : Bridge)
      (s : S) (p : Attempt (BudgetError E) BudgetReservation × (Bridge × S))
      → IsOutcome sdk per named_sdk
          (codes setup.copilot.id)
          (codes setup.copilot.room_id)
          setup.estimated_usd
          b
          s
          p
      → IsRefusedOrPaid prompt p (after_reserve sdk (some per) setup prompt action room p)
  after_reserve-IsRefusedOrPaid named_sdk prompt action room b s (threw e, money) h =
      inl (e, refl, refl)
  after_reserve-IsRefusedOrPaid named_sdk prompt action room b s (returned q, money)
        (next, inl (e, same, eq)) =
      cc
  after_reserve-IsRefusedOrPaid named_sdk prompt action room b s (returned q, money)
        (next, inr (eq, h)) =
      let q_is : q
          ≡ reservation sdk (some per) (codes setup.copilot.id) (codes setup.copilot.room_id)
              setup.estimated_usd b.next_hold_id =
        ground arith in
      let r =
        reservation sdk (some per) (codes setup.copilot.id) (codes setup.copilot.room_id)
          setup.estimated_usd b.next_hold_id in
      let t : Turn P S = record { room = room; money = money; reservation = q } in
      inr (
        q,
        refl,
        h.handle.name,
        h.named,
        of_turn prompt h.handle.name money.1 r refl h.named
            (with_reservation sdk (some per) setup prompt action t)
            (with_reservation-Ends prompt h.handle.name r money.1 refl h.named action t
              (q_is, refl)),
      )

  -- A run whose reservation is refused charges nothing. Otherwise a run that returns has charged,
  -- once and against the budget of its room, the last amount that a completion of the agent was
  -- settled at, or the estimate; a run that throws has charged just that or nothing.
  pub run_agent-IsRefusedOrPaid :
      (named_sdk : IsNamed sdk) (frame_text : Option (List ℕ)) (json : List ℕ) (action : Action)
      (s : Session P S)
      → IsRefusedOrPaid
          (frame_prompt frame_text json action)
          (reserve sdk
            (some per)
            (codes setup.copilot.id)
            (codes setup.copilot.room_id)
            setup.estimated_usd
            s.money)
          (run_agent sdk (some per) setup frame_text json action s)
  unfolding run_agent
  run_agent-IsRefusedOrPaid named_sdk frame_text json action s =
      after_reserve-IsRefusedOrPaid named_sdk (frame_prompt frame_text json action) action s.room
        s.money.0 s.money.1 _
        (reserve-IsOutcome sdk per named_sdk (codes setup.copilot.id) (codes setup.copilot.room_id)
          setup.estimated_usd s.money.0 s.money.1)
