-- ===== src/Copilot/Budget/Ledger/Owed.antt =====
-- The holds are what the reservations that were made, and neither reconciled nor released since,
-- ask for.
use theokit_plugins.Common.{
  ℕ, ℤ, ◌+◌, true, false, not, none, some, List, [], ◌∷◌, ◌++◌, find, filter, nat_beq,
  if◌then◌else◌, nat_eq, codes_eq, ◌≡◌, refl, sym, ap, ◌∙◌, arith, Option-cases, Bool-cases, inl,
  inr,
}
use theokit_plugins.Common.Async.{Attempt}
use theokit_plugins.Copilot.Budget.{
  Sdk, IsNamed, PerRoom, BudgetError, BudgetReservation, Bridge, Name, total, held_for, reservation,
  release, reconcile,
}
use theokit_plugins.Copilot.Budget.Reserve.{reserve-IsOutcome}
use theokit_plugins.Copilot.Budget.Ledger.{is_of, open_of, put_back}
use theokit_plugins.Copilot.Budget.Ledger.Calls.{
  Call, reserve_call, reconcile_call, release_call, Session, settle, call, run_calls, without,
  owed_after, owed,
}
use theokit_plugins.Copilot.Budget.Ledger.Backed.{opened, held_for-run_calls}

-- What the reservations of a budget ask for together.
abbrev pub promised : Name → List BudgetReservation → ℕ
promised n [] = 0
promised n (r ∷ rs) = (if is_of n r then r.estimated_usd else 0) + promised n rs

abbrev unsettled : List BudgetReservation → List BudgetReservation
unsettled rs = filter (λ r. not r.settled) rs

total-open_of :
    (n : Name) (rs : List BudgetReservation) → total (open_of n rs) ≡ promised n (unsettled rs)
unfolding open_of
total-open_of n [] = refl
total-open_of n (r ∷ rs) = ground (arith, total-open_of n rs)

unsettled-snoc :
    (rs : List BudgetReservation) (r : BudgetReservation)
    → r.settled ≡ false
    → unsettled (rs ++ r ∷ []) ≡ unsettled rs ++ r ∷ []
unsettled-snoc [] r fresh = rw fresh refl
unsettled-snoc (q ∷ rs) r fresh = ground (arith, unsettled-snoc rs r fresh)

-- A reservation that is settled where it stands is no longer owed, nor is any with its number.
unsettled-put_back :
    (r : BudgetReservation) (rs : List BudgetReservation)
    → r.settled ≡ true
    → unsettled (put_back r rs) ≡ without r.hold_id (unsettled rs)
unsettled-put_back r [] done = refl
unsettled-put_back r (q ∷ rs) done = ground (arith, unsettled-put_back r rs done)

without-missing :
    (id : ℕ) (rs : List BudgetReservation)
    → find (λ r. nat_beq r.hold_id id) rs ≡ none
    → without id (unsettled rs) ≡ unsettled rs
without-missing id [] e = refl
without-missing id (q ∷ rs) e = ground (arith, without-missing id rs)

find-number :
    (id : ℕ) (rs : List BudgetReservation) (r : BudgetReservation)
    → find (λ r. nat_beq r.hold_id id) rs ≡ some r
    → r.hold_id ≡ id
find-number id [] r e = cc
find-number id (q ∷ rs) r e = ground (arith, find-number id rs r)

module _ {S E : Type 0} (sdk : Sdk S E) (per : PerRoom) (named_sdk : IsNamed sdk) where
  settle-owed :
      (x : Session S) (id : ℕ)
      (f : BudgetReservation
        → (Bridge × S → Attempt (BudgetError E) Unit × (Bridge × S)) × BudgetReservation)
      → ((r : BudgetReservation) → ((f r).1.settled ≡ true) × ((f r).1.hold_id ≡ r.hold_id))
      → without id (unsettled x.given)
        ≡ unsettled (settle sdk per (find (λ r. nat_beq r.hold_id id) x.given) f x).given
  settle-owed x id f done = elim (Option-cases (find (λ r. nat_beq r.hold_id id) x.given)) [
    | inl missing ↦ rw missing (without-missing id x.given missing)
    | inr (r, found) ↦
        let (closed, same) = done r in
        let number : (f r).1.hold_id ≡ id = same ∙ find-number id x.given r found in
        rw found (
          sym (
            unsettled-put_back (f r).1 x.given closed
            ∙ ap (λ i. without i (unsettled x.given)) number))
  ]

  release-closes :
      (r : BudgetReservation)
      → ((release sdk (some per) r).1.settled ≡ true)
        × ((release sdk (some per) r).1.hold_id ≡ r.hold_id)
  unfolding release
  release-closes r = elim (Bool-cases r.settled) [
    | inl done ↦ rw done (refl, refl)
    | inr fresh ↦ rw fresh (refl, refl)
  ]

  reconcile-closes :
      (actual : ℤ) (r : BudgetReservation)
      → ((reconcile sdk (some per) r actual).1.settled ≡ true)
        × ((reconcile sdk (some per) r actual).1.hold_id ≡ r.hold_id)
  unfolding reconcile
  reconcile-closes actual r = elim (Bool-cases r.settled) [
    | inl done ↦ rw done (refl, refl)
    | inr fresh ↦ rw fresh (refl, refl)
  ]

  call-owed :
      (c : Call) (x : Session S)
      → owed_after sdk per c x (unsettled x.given) ≡ unsettled (call sdk per c x).given
  unfolding call
  call-owed (reserve_call c r usd) x =
      let (next, outcome) = reserve-IsOutcome sdk per named_sdk c r usd x.bridge x.sdk_state in
      elim outcome [
        | inl (e, same, bad) ↦ rw bad refl
        | inr (ok, made) ↦ rw ok (
            sym (
              unsettled-snoc x.given (reservation sdk (some per) c r usd x.bridge.next_hold_id)
                refl))
      ]
  call-owed (reconcile_call id actual) x = settle-owed x id _ (reconcile-closes actual)
  call-owed (release_call id) x = settle-owed x id _ release-closes

  owed-unsettled :
      (cs : List Call) (x : Session S)
      → owed sdk per cs x (unsettled x.given) ≡ unsettled (run_calls sdk per cs x).given
  unfolding owed run_calls
  owed-unsettled [] x = refl
  owed-unsettled (c ∷ cs) x =
      ap (owed sdk per cs (call sdk per c x)) (call-owed c x) ∙ owed-unsettled cs (call sdk per c x)

  -- After any calls, what is held against a budget is the sum of the estimates of the reservations
  -- that were made for it and that no call has reconciled or released since: no such call leaves
  -- anything behind, and settling twice takes nothing from another.
  pub held_for-owed :
      (cs : List Call) (s : S) (n : Name)
      → held_for n (run_calls sdk per cs (opened s)).bridge.holds
        ≡ promised n (owed sdk per cs (opened s) [])
  held_for-owed cs s n =
      held_for-run_calls sdk per named_sdk cs s n
      ∙ total-open_of n (run_calls sdk per cs (opened s)).given
      ∙ ap (promised n) (sym (owed-unsettled cs (opened s)))
