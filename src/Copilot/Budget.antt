-- ===== src/Copilot/Budget.antt =====
-- packages/plugin-copilot/src/internal/budget-bridge.ts. Amounts are whole numbers of the least
-- unit of money (the rounding of the language's numbers is left out). The SDK's budgets are the
-- parameter `sdk`, over a state of its own.
pub mod Reserve
pub mod Ledger
use theokit_plugins.Common.{
  ℕ, suc, ◌+◌, ◌<◌, ◌≤◌, Bool, true, false, Option, none, some, List, [], ◌∷◌, ◌++◌, ◌≡◌, nat_beq,
  ltb, find, if◌then◌else◌, ◌==◌, codes_eq, nat_eq, ℤ, pos, negsuc,
}
use theokit_plugins.Common.Assoc.{Assoc, get, set, delete}
use theokit_plugins.Common.Async.{
  Attempt, returned, threw, Async, proceed, ◌>>=◌, ◌>>◌, pure, throw,
}
use theokit_plugins.Copilot.Name.{budget_name_for}

pub data Window : Type 0 where
  hour day week month year : Window

abbrev rank : Window → ℕ
rank = elim [ hour ↦ 0 | day ↦ 1 | week ↦ 2 | month ↦ 3 | year ↦ 4 ]

abbrev pub same_window : Window → Window → Bool
same_window v w = nat_beq (rank v) (rank w)

pub record BudgetLimit : Type 0 where
  pub window : Window
  pub limit_usd : ℕ

-- `CopilotBudgetConfig.perRoom`
pub record PerRoom : Type 0 where
  pub daily_usd : Option ℕ
  pub monthly_usd : Option ℕ
  pub per_request_usd : Option ℕ
  pub limits : List BudgetLimit

abbrev pub sugar : Window → Option ℕ → List BudgetLimit
sugar w none = []
sugar w (some usd) = record { window = w; limit_usd = usd } ∷ []

-- `limits.splice(i, 1)` at the first limit of the window, if there is one.
unfoldable pub without_first : Window → List BudgetLimit → List BudgetLimit
without_first w [] = []
without_first w (l ∷ ls) =
    let rest = without_first w ls in if same_window l.window w then ls else l ∷ rest

unfoldable pub add_explicit : List BudgetLimit → List BudgetLimit → List BudgetLimit
unfolding without_first
add_explicit limits [] = limits
add_explicit limits (l ∷ ls) = add_explicit (without_first l.window limits ++ l ∷ []) ls

unfoldable pub limits_from : Option PerRoom → List BudgetLimit
unfolding add_explicit
limits_from none = []
limits_from (some per) =
    add_explicit (sugar day per.daily_usd ++ sugar month per.monthly_usd) per.limits

abbrev pub Name : Type 0
Name = List ℕ

pub record BudgetHandle : Type 0 where
  pub name : Name
  pub limits : List BudgetLimit

pub data BudgetError (E : Type 0) : Type 0 where
  name_invalid : BudgetError E
  per_request_exceeded : BudgetError E
  in_flight_exceeded : Window → BudgetError E
  sdk_error : E → BudgetError E

-- What the code calls of `@theokit/sdk`.
pub record Sdk (S E : Type 0) : Type 1 where
  pub get_budget : Name → S → Option BudgetHandle
  pub create : Name → List BudgetLimit → Async S E BudgetHandle
  pub remaining_in : BudgetHandle → Window → S → ℕ
  pub preflight_check : Name → ℕ → Async S E Unit
  pub charge_and_check_thresholds : Name → ℕ → Async S E Unit

-- A budget is found and made under the name that is asked for.
pub record IsNamed {S E : Type 0} (sdk : Sdk S E) : Type 0 where
  pub found : (n : Name) (s : S) (h : BudgetHandle) → sdk.get_budget n s ≡ some h → h.name ≡ n
  pub made :
      (n : Name) (ls : List BudgetLimit) (s t : S) (h : BudgetHandle)
      → sdk.create n ls s ≡ (returned h, t)
      → h.name ≡ n

pub record BudgetReservation : Type 0 where
  pub copilot_id : List ℕ
  pub room_id : List ℕ
  pub estimated_usd : ℕ
  pub hold_id : ℕ
  pub settled : Bool

abbrev pub Holds : Type 0
Holds = Assoc Name (Assoc ℕ ℕ)

pub record Bridge : Type 0 where
  pub holds : Holds
  pub next_hold_id : ℕ

abbrev pub held_in : Option (Assoc ℕ ℕ) → Assoc ℕ ℕ
held_in none = []
held_in (some m) = m

abbrev pub total : Assoc ℕ ℕ → ℕ
total [] = 0
total ((id, usd) ∷ m) = usd + total m

-- `heldFor`
unfoldable pub held_for : Name → Holds → ℕ
held_for name holds = total (held_in (get name holds))

-- `perName.set(holdId, estimatedUsd)`, in a new map if there is none.
unfoldable pub hold : Name → ℕ → ℕ → Holds → Holds
hold name id usd holds = set name (set id usd (held_in (get name holds))) holds

-- `this.holds.get(name)?.delete(holdId)`
unfoldable pub drop_hold : Name → ℕ → Holds → Holds
drop_hold name id holds = elim (get name holds) [
  | none ↦ holds
  | some m ↦ set name (delete id m) holds
]

-- `Math.max(0, actualUsd)`, of an amount that may be negative.
abbrev pub at_least_zero : ℤ → ℕ
at_least_zero (pos n) = n
at_least_zero (negsuc n) = 0

abbrev pub over : Option ℕ → ℕ → Bool
over none usd = false
over (some cap) usd = ltb cap usd

abbrev pub of_sdk : {E A : Type 0} → Attempt E A → Attempt (BudgetError E) A
of_sdk (returned a) = returned a
of_sdk (threw e) = threw (sdk_error e)

module _ {S E : Type 0} (sdk : Sdk S E) (config : Option PerRoom) where
  abbrev pub Budgeted : Type 0 → Type 0
  Budgeted A = Async (Bridge × S) (BudgetError E) A

  -- A call of the SDK, which leaves the holds alone.
  abbrev pub from_sdk : {A : Type 0} → Async S E A → Budgeted A
  from_sdk m (b, s) = let (r, t) = m s in (of_sdk r, (b, t))

  abbrev pub named : Option Name → Budgeted Name
  named none w = (threw name_invalid, w)
  named (some name) w = (returned name, w)

  -- `budgetNameFor`, which throws for a name outside the grammar.
  abbrev pub name_of : List ℕ → List ℕ → Budgeted Name
  name_of copilot_id room_id = named (budget_name_for copilot_id room_id)

  -- `Budget.get(name) ?? Budget.create(…)`
  abbrev pub found_or_made : Name → Option BudgetHandle → Budgeted BudgetHandle
  found_or_made name (some h) w = (returned h, w)
  found_or_made name none w = from_sdk (sdk.create name (limits_from config)) w

  abbrev pub look_up : Name → Budgeted BudgetHandle
  look_up name w = found_or_made name (sdk.get_budget name w.1) w

  -- `handleFor`
  unfoldable pub handle_for : List ℕ → List ℕ → Budgeted BudgetHandle
  unfolding limits_from
  handle_for copilot_id room_id = name_of copilot_id room_id >>= look_up

  -- The first limit that the estimate would exceed with what is held.
  unfoldable pub first_short : BudgetHandle → ℕ → ℕ → S → List BudgetLimit → Option Window
  first_short h held usd s [] = none
  first_short h held usd s (l ∷ ls) =
      if ltb (sdk.remaining_in h l.window s) (usd + held)
      then some l.window
      else first_short h held usd s ls

  -- `assertWithinLimits`
  unfoldable pub assert_within_limits : PerRoom → BudgetHandle → ℕ → Budgeted Unit
  unfolding first_short held_for
  assert_within_limits per h usd (b, s) =
      let held = held_for h.name b.holds in
      let short = if ltb 0 held then first_short h held usd s h.limits else none in
      if over per.per_request_usd usd then (threw per_request_exceeded, (b, s)) else elim short [
        | some w ↦ (threw (in_flight_exceeded w), (b, s))
        | none ↦ from_sdk (sdk.preflight_check h.name usd) (b, s)
      ]

  abbrev pub reservation : List ℕ → List ℕ → ℕ → ℕ → BudgetReservation
  reservation copilot_id room_id usd id = record {
    copilot_id = copilot_id;
    room_id = room_id;
    estimated_usd = usd;
    hold_id = id;
    settled = false;
  }

  abbrev pub put_hold : BudgetHandle → ℕ → ℕ → Budgeted Unit
  put_hold h id usd (b, s) = (returned tt, (record b { holds = hold h.name id usd b.holds }, s))

  unfoldable pub reserve_enabled : PerRoom → List ℕ → List ℕ → ℕ → ℕ → Budgeted BudgetReservation
  unfolding handle_for assert_within_limits hold
  reserve_enabled per copilot_id room_id usd id = handle_for copilot_id room_id >>= (λ h.
      assert_within_limits per h usd
      >> (put_hold h id usd >> pure (reservation copilot_id room_id usd id)))

  unfoldable pub reserve : List ℕ → List ℕ → ℕ → Budgeted BudgetReservation
  unfolding reserve_enabled
  reserve copilot_id room_id usd (b, s) =
      let id = b.next_hold_id in
      let counted = record b { next_hold_id = suc id } in
      elim config [
        | none ↦ (returned (reservation copilot_id room_id usd id), (counted, s))
        | some per ↦ reserve_enabled per copilot_id room_id usd id (counted, s)
      ]

  abbrev pub let_go : BudgetReservation → Budgeted Name
  let_go r = name_of r.copilot_id r.room_id >>= (λ name (b, s).
      (returned name, (record b { holds = drop_hold name r.hold_id b.holds }, s)))

  -- `release`: the reservation, settled, is the second result.
  unfoldable pub release : BudgetReservation → Budgeted Unit × BudgetReservation
  unfolding drop_hold
  release r = if r.settled then (pure tt, r) else (
    (λ w. elim config [ none ↦ (returned tt, w) | some per ↦ (let_go r >> pure tt) w ]),
    record r { settled = true },
  )

  unfoldable pub reconcile : BudgetReservation → ℤ → Budgeted Unit × BudgetReservation
  unfolding drop_hold
  reconcile r actual = if r.settled then (pure tt, r) else (
    (λ w. elim config [
      | none ↦ (returned tt, w)
      | some per ↦
          (let_go r
              >>= (λ name. from_sdk (sdk.charge_and_check_thresholds name (at_least_zero actual))))
            w
    ]),
    record r { settled = true },
  )
