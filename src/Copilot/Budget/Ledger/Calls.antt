-- ===== src/Copilot/Budget/Ledger/Calls.antt =====
-- Any sequence of calls of the bridge, on one state of the SDK.
use theokit_plugins.Common.{
  ℤ, ℕ, suc, ◌<◌, true, false, Option, none, some, List, [], ◌∷◌, ◌++◌, find, filter, not, nat_beq,
  codes_eq, nat_eq, ◌≡◌, refl, subst, arith, All, Bool-cases, inl, inr,
}
use theokit_plugins.Common.Assoc.{get}
use theokit_plugins.Common.Async.{Attempt, returned, threw}
use theokit_plugins.Common.Sort.{Strict}
use theokit_plugins.Copilot.Name.{budget_name_for}
use theokit_plugins.Copilot.Budget.{
  Sdk, PerRoom, BudgetError, BudgetReservation, Bridge, Name, held_in, drop_hold, reserve, release,
  reconcile,
}
use theokit_plugins.Copilot.Budget.Ledger.{open_of, put_back, IsOnly}

-- The caller names a reservation that it was given by the number of its hold.
pub data Call : Type 0 where
  reserve_call : (copilot_id room_id : List ℕ) → (usd : ℕ) → Call
  reconcile_call : (hold_id : ℕ) → (actual : ℤ) → Call
  release_call : (hold_id : ℕ) → Call

pub record Session (S : Type 0) : Type 0 where
  pub bridge : Bridge
  pub sdk_state : S
  pub given : List BudgetReservation

abbrev pub given_after :
    {E : Type 0} → Attempt E BudgetReservation → List BudgetReservation → List BudgetReservation
given_after (returned r) rs = rs ++ r ∷ []
given_after (threw e) rs = rs

-- The reservations with another number.
abbrev pub without : (hold_id : ℕ) → List BudgetReservation → List BudgetReservation
without id rs = filter (λ r. not (nat_beq r.hold_id id)) rs

module _ {S E : Type 0} (sdk : Sdk S E) (per : PerRoom) where
  abbrev pub settled_by :
      {A : Type 0}
      → (Bridge × S → Attempt (BudgetError E) A × (Bridge × S)) × BudgetReservation
      → Session S
      → Session S
  settled_by (m, r) x =
      let (result, (b, s)) = m (x.bridge, x.sdk_state) in
      record { bridge = b; sdk_state = s; given = put_back r x.given }

  abbrev pub settle :
      Option BudgetReservation
      → (BudgetReservation
          → (Bridge × S → Attempt (BudgetError E) Unit × (Bridge × S)) × BudgetReservation)
      → Session S
      → Session S
  settle none f x = x
  settle (some r) f x = settled_by (f r) x

  unfoldable pub call : Call → Session S → Session S
  call (reserve_call c r usd) x =
      let (result, (b, s)) = reserve sdk (some per) c r usd (x.bridge, x.sdk_state) in
      record { bridge = b; sdk_state = s; given = given_after result x.given }
  call (reconcile_call id actual) x =
      settle (find (λ r. nat_beq r.hold_id id) x.given) (λ r. reconcile sdk (some per) r actual) x
  call (release_call id) x =
      settle (find (λ r. nat_beq r.hold_id id) x.given) (λ r. release sdk (some per) r) x

  -- The account of what was promised, kept from outside: a reservation that is made comes in, and
  -- a call that reconciles or releases its number takes it out.
  abbrev pub owed_after : Call → Session S → List BudgetReservation → List BudgetReservation
  owed_after (reserve_call c r usd) x rs =
      given_after (reserve sdk (some per) c r usd (x.bridge, x.sdk_state)).0 rs
  owed_after (reconcile_call id actual) x rs = without id rs
  owed_after (release_call id) x rs = without id rs

  unfoldable pub owed : List Call → Session S → List BudgetReservation → List BudgetReservation
  owed [] x rs = rs
  owed (c ∷ cs) x rs = owed cs (call c x) (owed_after c x rs)

  unfoldable pub run_calls : List Call → Session S → Session S
  unfolding call
  run_calls [] x = x
  run_calls (c ∷ cs) x = run_calls cs (call c x)

-- The bridge's maps hold what the open reservations ask for; numbers of holds are not given twice.
pub record IsBacked {S : Type 0} (x : Session S) : Type 0 where
  pub backed : (n : Name) → held_in (get n x.bridge.holds) ≡ open_of n x.given
  pub ordered : Strict (λ r. r.hold_id) x.given
  pub below : All (λ r. r.hold_id < x.bridge.next_hold_id) x.given
  pub named : All (λ r. (n : Name) × (budget_name_for r.copilot_id r.room_id ≡ some n)) x.given

pub below-suc :
    (n : ℕ) (rs : List BudgetReservation)
    → All (λ r. r.hold_id < n) rs
    → All (λ r. r.hold_id < suc n) rs
below-suc n [] h = tt
below-suc n (r ∷ rs) (p, h) = (omega arith, below-suc n rs h)

not_above :
    (r : BudgetReservation) (rs : List BudgetReservation)
    → All (λ q. r.hold_id < q.hold_id) rs
    → IsOnly r rs
not_above r [] h = tt
not_above r (q ∷ rs) (p, h) = ((λ e. absurd (omega arith)), not_above r rs h)

-- The reservation that is found is the only one with its hold, and has a name.
pub found-IsOnly :
    (id : ℕ) (rs : List BudgetReservation) (r : BudgetReservation)
    → Strict (λ r. r.hold_id) rs
    → All (λ r. (n : Name) × (budget_name_for r.copilot_id r.room_id ≡ some n)) rs
    → find (λ r. nat_beq r.hold_id id) rs ≡ some r
    → IsOnly r rs
      × (r.hold_id ≡ id)
      × ((n : Name) × (budget_name_for r.copilot_id r.room_id ≡ some n))
found-IsOnly id [] r h k e = cc
found-IsOnly id (q ∷ rs) r (above, h) (p, k) e = elim (Bool-cases (nat_beq q.hold_id id)) [
  | inl hit ↦
      let here : q ≡ r = ground arith in
      subst
        (λ r.
          IsOnly r (q ∷ rs)
          × (r.hold_id ≡ id)
          × ((n : Name) × (budget_name_for r.copilot_id r.room_id ≡ some n)))
        here (((λ same. refl), not_above q rs above), ground arith, p)
  | inr miss ↦
      let (only, same, n) = found-IsOnly id rs r h k (ground arith) in
      (((λ e. absurd (ground arith)), only), same, n)
]

pub All-put_back :
    (P : BudgetReservation → Type 0) (r : BudgetReservation) (rs : List BudgetReservation)
    → P r
    → All P rs
    → All P (put_back r rs)
All-put_back P r [] p h = tt
All-put_back P r (q ∷ rs) p (k, h) = elim (Bool-cases (nat_beq q.hold_id r.hold_id)) [
  | inl hit ↦ rw hit (p, All-put_back P r rs p h)
  | inr miss ↦ rw miss (k, All-put_back P r rs p h)
]

above-put_back :
    (n : ℕ) (r : BudgetReservation) (rs : List BudgetReservation)
    → All (λ q. n < q.hold_id) rs
    → All (λ q. n < q.hold_id) (put_back r rs)
above-put_back n r [] h = tt
above-put_back n r (q ∷ rs) (k, h) = ground (arith, above-put_back n r rs h)

pub below-put_back :
    (n : ℕ) (r : BudgetReservation) (rs : List BudgetReservation)
    → All (λ q. q.hold_id < n) rs
    → All (λ q. q.hold_id < n) (put_back r rs)
below-put_back n r [] h = tt
below-put_back n r (q ∷ rs) (k, h) = ground (arith, below-put_back n r rs h)

pub put_back-Strict :
    (r : BudgetReservation) (rs : List BudgetReservation)
    → Strict (λ q. q.hold_id) rs
    → Strict (λ q. q.hold_id) (put_back r rs)
put_back-Strict r [] h = tt
put_back-Strict r (q ∷ rs) (k, h) = elim (Bool-cases (nat_beq q.hold_id r.hold_id)) [
  | inl hit ↦
      let same : q.hold_id ≡ r.hold_id = ground arith in
      rw (hit, ← same) (above-put_back q.hold_id r rs k, put_back-Strict r rs h)
  | inr miss ↦ rw miss (above-put_back q.hold_id r rs k, put_back-Strict r rs h)
]

module _ {S E : Type 0} (sdk : Sdk S E) (per : PerRoom) where
  -- Settling drops the hold, whatever the SDK answers.
  pub release-drops :
      (r : BudgetReservation) (b : Bridge) (s : S) (n : Name)
      → r.settled ≡ false
      → budget_name_for r.copilot_id r.room_id ≡ some n
      → (((release sdk (some per) r).0 (b, s)).1.0
          ≡ record b { holds = drop_hold n r.hold_id b.holds })
        × ((release sdk (some per) r).1 ≡ record r { settled = true })
  unfolding release
  release-drops r b s n fresh known = rw (fresh, known) (refl, refl)

  pub reconcile-drops :
      (r : BudgetReservation) (actual : ℤ) (b : Bridge) (s : S) (n : Name)
      → r.settled ≡ false
      → budget_name_for r.copilot_id r.room_id ≡ some n
      → (((reconcile sdk (some per) r actual).0 (b, s)).1.0
          ≡ record b { holds = drop_hold n r.hold_id b.holds })
        × ((reconcile sdk (some per) r actual).1 ≡ record r { settled = true })
  unfolding reconcile
  reconcile-drops r actual b s n fresh known = rw (fresh, known) (refl, refl)
