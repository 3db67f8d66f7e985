-- ===== src/Copilot/Run/Holds.antt =====
-- What is held after a run is what was held before it.
use theokit_plugins.Common.{
  ℤ, ℕ, suc, ◌<◌, Option, none, some, List, [], ◌∷◌, codes_eq, nat_eq, ◌≡◌, refl, sym, subst, ap,
  ◌∙◌, arith, Bool, true, false, All, ◌⊎◌, inl, inr, Bool-cases,
}
use theokit_plugins.Common.Assoc.{Assoc, get, set, delete}
use theokit_plugins.Common.Async.{Attempt, returned, threw, pure}
use theokit_plugins.Common.Text.{codes}
use theokit_plugins.Copilot.Name.{budget_name_for}
use theokit_plugins.Copilot.Budget.{
  Sdk, IsNamed, PerRoom, BudgetError, BudgetReservation, Bridge, Name, Holds, held_in, hold,
  drop_hold, reservation, release, reconcile, reserve,
}
use theokit_plugins.Copilot.Budget.Reserve.{IsOutcome, reserve-IsOutcome}
use theokit_plugins.Copilot.Budget.Ledger.{held_in-hold, held_in-drop_hold}
use theokit_plugins.Copilot.Budget.Ledger.Calls.{release-drops, reconcile-drops}
use theokit_plugins.Copilot.Prompt.{Action}
use theokit_plugins.Copilot.Run.{Setup, Session, with_reservation, after_reserve, run_agent}
use theokit_plugins.Copilot.Run.Money.{Settles, with_reservation-Frees}

-- No hold has a number that is still to be given.
abbrev pub IsFresh : Bridge → Type 0
IsFresh b = (n : Name) → All (λ h. h.0 < b.next_hold_id) (held_in (get n b.holds))

-- Every budget has the holds that it had.
abbrev pub AreSame : Holds → Holds → Type 0
AreSame before after = (n : Name) → held_in (get n after) ≡ held_in (get n before)

below_suc : (id : ℕ) (m : Assoc ℕ ℕ) → All (λ h. h.0 < id) m → All (λ h. h.0 < suc id) m
below_suc id [] h = tt
below_suc id (x ∷ m) (lt, h) = (omega arith, below_suc id m h)

-- A hold that is put under a new number and deleted leaves the map as it was.
delete-set : (id usd : ℕ) (m : Assoc ℕ ℕ) → All (λ h. h.0 < id) m → delete id (set id usd m) ≡ m
unfolding set delete
delete-set id usd [] h = ground arith
delete-set id usd ((j, v) ∷ m) (lt, h) = ground (arith, nat_eq.beq_iff j id, delete-set id usd m h)

drop_hold-hold :
    (m : Name) (id usd : ℕ) (holds : Holds)
    → All (λ h. h.0 < id) (held_in (get m holds))
    → AreSame holds (drop_hold m id (hold m id usd holds))
drop_hold-hold m id usd holds fresh n = ground (
  arith,
  codes_eq.beq_iff m n,
  codes_eq.beq_iff m m,
  held_in-drop_hold m n id (hold m id usd holds),
  held_in-hold m n id usd holds,
  held_in-hold m m id usd holds,
  delete-set id usd (held_in (get m holds)) fresh,
)

module _ {S E : Type 0} (sdk : Sdk S E) (config : Option PerRoom) where
  pub release-again :
      (q : BudgetReservation) → q.settled ≡ true → release sdk config q ≡ (pure tt, q)
  unfolding release
  release-again q done = rw done refl

  reconcile-again :
      (q : BudgetReservation) (actual : ℤ)
      → q.settled ≡ true
      → reconcile sdk config q actual ≡ (pure tt, q)
  unfolding reconcile
  reconcile-again q actual done = rw done refl

-- With a budget: the reservation is open and its hold is in place, or it is settled and the holds
-- are as before.
module _ {S E : Type 0} (sdk : Sdk S E) (per : PerRoom) (before : Bridge) (r : BudgetReservation)
    (n : Name) (usd : ℕ) where
  abbrev pub IsSettled : (Bridge × S) × BudgetReservation → Type 0
  IsSettled (money, q) =
      (money.0.next_hold_id ≡ suc before.next_hold_id)
      × (q.settled ≡ true)
      × AreSame before.holds money.0.holds

  abbrev pub IsAhead : (Bridge × S) × BudgetReservation → Type 0
  IsAhead (money, q) =
      ((money.0.next_hold_id ≡ suc before.next_hold_id)
        × (q ≡ r)
        × (money.0.holds ≡ hold n r.hold_id usd before.holds))
      ⊎ IsSettled (money, q)

  module _ (open_still : r.settled ≡ false)
      (known : budget_name_for r.copilot_id r.room_id ≡ some n)
      (fresh : All (λ h. h.0 < r.hold_id) (held_in (get n before.holds))) where
    dropped :
        (b : Bridge)
        → b.holds ≡ hold n r.hold_id usd before.holds
        → AreSame before.holds (drop_hold n r.hold_id b.holds)
    dropped b e = rw e (drop_hold-hold n r.hold_id usd before.holds fresh)

    -- A call that drops the hold and marks the reservation, whatever it answers.
    marked :
        (b after : Bridge) (q : BudgetReservation)
        → (b.next_hold_id ≡ suc before.next_hold_id)
        → b.holds ≡ hold n r.hold_id usd before.holds
        → (after ≡ record b { holds = drop_hold n r.hold_id b.holds })
          × (q ≡ record r { settled = true })
        → (s : S) → IsSettled ((after, s), q)
    marked b after q next held (money, settled) s = (
      ap (λ x. x.next_hold_id) money ∙ next,
      ap (λ x. x.settled) settled,
      subst (λ x. AreSame before.holds x.holds) (sym money) (dropped b held),
    )

    release-Settles : Settles IsAhead IsSettled (λ q. release sdk (some per) q)
    release-Settles (b, s) q (inr (next, done, same)) =
        rw (release-again sdk (some per) q done) (next, done, same)
    release-Settles (b, s) q (inl (next, here, held)) = rw here (
        marked b _ _ next held (release-drops sdk per r b s n open_still known)
          ((release sdk (some per) r).0 (b, s)).1.1)

    reconcile-Settles :
        (actual : ℤ) → Settles IsAhead IsAhead (λ q. reconcile sdk (some per) q actual)
    reconcile-Settles actual (b, s) q (inr (next, done, same)) =
        rw (reconcile-again sdk (some per) q actual done) (inr (next, done, same))
    reconcile-Settles actual (b, s) q (inl (next, here, held)) = rw here (
        inr (
          marked b _ _ next held (reconcile-drops sdk per r actual b s n open_still known)
            ((reconcile sdk (some per) r actual).0 (b, s)).1.1))

    pub with_reservation-Settled :
        {P F : Type 0} (setup : Setup P E F) (prompt : List ℕ) (action : Action) (room : Bool × P)
        (money : Bridge × S)
        → (money.0.next_hold_id ≡ suc before.next_hold_id)
        → (money.0.holds ≡ hold n r.hold_id usd before.holds)
        → let t =
            (with_reservation sdk
              (some per)
              setup
              prompt
              action
              (record { room = room; money = money; reservation = r })).1 in
          IsSettled (t.money, t.reservation)
    with_reservation-Settled setup prompt action room money next held =
        with_reservation-Frees sdk (some per) setup IsAhead reconcile-Settles IsSettled
          (λ x h. inr h) release-Settles prompt action _ (inl (next, refl, held))

abbrev pub IsKept : Bridge → Bridge → Type 0
IsKept before after = AreSame before.holds after.holds × IsFresh after

fresh-IsKept :
    (before after : Bridge)
    → IsFresh before
    → after.next_hold_id ≡ suc before.next_hold_id
    → AreSame before.holds after.holds
    → IsKept before after
fresh-IsKept before after fresh next same = (
  same,
  (λ n. rw (next, same n) (below_suc before.next_hold_id (held_in (get n before.holds)) (fresh n))),
)

-- Without a budget nothing is ever held.
module _ {S E : Type 0} (sdk : Sdk S E) (counted : Bridge) where
  abbrev IsCounted : (Bridge × S) × BudgetReservation → Type 0
  IsCounted (money, r) = money.0 ≡ counted

  release-IsCounted : Settles IsCounted IsCounted (λ q. release sdk none q)
  unfolding release
  release-IsCounted money q h = elim (Bool-cases q.settled) [
    | inl done ↦ rw done h
    | inr open_still ↦ rw open_still h
  ]

  reconcile-IsCounted :
      (actual : ℤ) → Settles IsCounted IsCounted (λ q. reconcile sdk none q actual)
  unfolding reconcile
  reconcile-IsCounted actual money q h = elim (Bool-cases q.settled) [
    | inl done ↦ rw done h
    | inr open_still ↦ rw open_still h
  ]

module _ {P S E F : Type 0} (sdk : Sdk S E) (setup : Setup P E F) (prompt : List ℕ)
    (action : Action) (room : Bool × P) (before : Bridge) (fresh : IsFresh before) where
  with_budget :
      (per : PerRoom) (named_sdk : IsNamed sdk) (c r : List ℕ) (usd : ℕ) (s : S)
      (p : Attempt (BudgetError E) BudgetReservation × (Bridge × S))
      → IsOutcome sdk per named_sdk c r usd before s p
      → IsKept before (after_reserve sdk (some per) setup prompt action room p).1.money.0
  with_budget per named_sdk c r usd s (threw e, money) (next, inl (e', same, eq)) =
      fresh-IsKept before money.0 fresh next (λ n. rw same refl)
  with_budget per named_sdk c r usd s (threw e, money) (next, inr (eq, h)) = cc
  with_budget per named_sdk c r usd s (returned q, money) (next, inl (e', same, eq)) = cc
  with_budget per named_sdk c r usd s (returned q, money) (next, inr (eq, h)) =
      let q_is : q ≡ reservation sdk (some per) c r usd before.next_hold_id = ground arith in
      let (next', done, same) =
        with_reservation-Settled sdk per before
          (reservation sdk (some per) c r usd before.next_hold_id) h.handle.name usd refl h.named
          (fresh h.handle.name) setup prompt action room money next h.held in
      rw q_is (fresh-IsKept before _ fresh next' same)

  without_budget :
      (r : BudgetReservation) (money : Bridge × S)
      → money.0 ≡ record before { next_hold_id = suc before.next_hold_id }
      → IsKept before
          (after_reserve sdk none setup prompt action room (returned r, money)).1.money.0
  without_budget r money e =
      let counted = record before { next_hold_id = suc before.next_hold_id } in
      let same =
        with_reservation-Frees sdk none setup (IsCounted sdk counted)
          (reconcile-IsCounted sdk counted) (IsCounted sdk counted) (λ x h. h)
          (release-IsCounted sdk counted) prompt action
          (record { room = room; money = money; reservation = r }) e in
      fresh-IsKept before _ fresh (ap (λ x. x.next_hold_id) same)
        (λ n. ap (λ x. held_in (get n x.holds)) same)

-- Whatever a run does, and however it ends, every budget has the holds that it had before the
-- run, and no hold has a number that is still to be given.
pub run_agent-IsKept :
    {P S E F : Type 0} (sdk : Sdk S E) (named_sdk : IsNamed sdk) (config : Option PerRoom)
    (setup : Setup P E F) (frame_text : Option (List ℕ)) (json : List ℕ) (action : Action)
    (s : Session P S)
    → IsFresh s.money.0
    → IsKept s.money.0 (run_agent sdk config setup frame_text json action s).1.money.0
unfolding run_agent reserve
run_agent-IsKept sdk named_sdk (some per) setup frame_text json action s fresh =
    with_budget sdk setup _ action s.room s.money.0 fresh per named_sdk (codes setup.copilot.id)
      (codes setup.copilot.room_id) setup.estimated_usd s.money.1 _
      (reserve-IsOutcome sdk per named_sdk (codes setup.copilot.id) (codes setup.copilot.room_id)
        setup.estimated_usd s.money.0 s.money.1)
run_agent-IsKept sdk named_sdk none setup frame_text json action s fresh =
    without_budget sdk setup _ action s.room s.money.0 fresh _ _ refl
