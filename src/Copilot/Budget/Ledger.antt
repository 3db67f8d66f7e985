-- ===== src/Copilot/Budget/Ledger.antt =====
-- The holds are those of the reservations that are open, whatever the calls and their order: a
-- session is the bridge and the reservations that it has handed out, with their `settled` flags.
pub mod Calls
pub mod Backed
pub mod Owed
use theokit_plugins.Common.{
  ℕ, zero, suc, ◌+◌, ◌<◌, ◌≤◌, Bool, true, false, not, Option, none, some, List, [], ◌∷◌, ◌++◌,
  ◌&&◌, map, find, nat_beq, if◌then◌else◌, ◌==◌, codes_eq, nat_eq, ◌≡◌, ◌≢◌, refl, sym, ap, ◌∙◌,
  arith, All, Option-cases, Bool-cases, inl, inr,
}
use theokit_plugins.Common.Assoc.{Assoc, get, set, delete, get-set}
use theokit_plugins.Copilot.Name.{budget_name_for}
use theokit_plugins.Copilot.Budget.{Name, BudgetReservation, Holds, held_in, total, hold, drop_hold}

abbrev bears : Name → Option Name → Bool
bears n none = false
bears n (some m) = m == n

-- The reservation's budget is the one of the name.
abbrev pub is_of : Name → BudgetReservation → Bool
is_of n r = bears n (budget_name_for r.copilot_id r.room_id)

-- The holds that the open reservations of a budget ask for, the oldest first.
unfoldable pub open_of : Name → List BudgetReservation → Assoc ℕ ℕ
open_of n [] = []
open_of n (r ∷ rs) =
    let rest = open_of n rs in
    if is_of n r && not r.settled then (r.hold_id, r.estimated_usd) ∷ rest else rest

-- The reservation object, changed where it stands.
abbrev pub put_back : BudgetReservation → List BudgetReservation → List BudgetReservation
put_back r [] = []
put_back r (q ∷ rs) = (if nat_beq q.hold_id r.hold_id then r else q) ∷ put_back r rs

pub held_in-hold :
    (m n : Name) (id usd : ℕ) (holds : Holds)
    → held_in (get n (hold m id usd holds))
      ≡ (if m == n then set id usd (held_in (get m holds)) else held_in (get n holds))
unfolding hold
held_in-hold m n id usd holds =
    ground (arith, get-set m n (set id usd (held_in (get m holds))) holds)

pub held_in-drop_hold :
    (m n : Name) (id : ℕ) (holds : Holds)
    → held_in (get n (drop_hold m id holds))
      ≡ (if m == n then delete id (held_in (get m holds)) else held_in (get n holds))
unfolding drop_hold delete
held_in-drop_hold m n id holds = elim (Option-cases (get m holds)) [
  | inl missing ↦ rw (missing, drop_hold) (ground (arith, codes_eq.beq_iff m n))
  | inr (h, found) ↦ rw (found, drop_hold) (ground (arith, get-set m n (delete id h) holds))
]

pub open_of-snoc :
    (n : Name) (rs : List BudgetReservation) (r : BudgetReservation)
    → open_of n (rs ++ r ∷ []) ≡ (
        if is_of n r && not r.settled
        then open_of n rs ++ (r.hold_id, r.estimated_usd) ∷ []
        else open_of n rs)
unfolding open_of
open_of-snoc n [] r = ground arith
open_of-snoc n (q ∷ rs) r = ground (arith, open_of-snoc n rs r)

-- A new hold goes to the end.
pub set-open_of :
    (n : Name) (id usd : ℕ) (rs : List BudgetReservation)
    → All (λ q. q.hold_id < id) rs
    → set id usd (open_of n rs) ≡ open_of n rs ++ (id, usd) ∷ []
unfolding open_of set
set-open_of n id usd [] h = refl
set-open_of n id usd (q ∷ rs) (lt, h) = ground (arith, set-open_of n id usd rs h)

-- A reservation is the only one with its hold.
abbrev pub IsOnly : BudgetReservation → List BudgetReservation → Type 0
IsOnly r rs = All (λ q. q.hold_id ≡ r.hold_id → q ≡ r) rs

pub put_back-same :
    (r : BudgetReservation) (rs : List BudgetReservation) → IsOnly r rs → put_back r rs ≡ rs
put_back-same r [] h = refl
put_back-same r (q ∷ rs) (same, h) = elim (Bool-cases (nat_beq q.hold_id r.hold_id)) [
  | inl hit ↦ rw (hit, put_back-same r rs h) (ap (λ x. x ∷ rs) (sym (same (ground arith))))
  | inr miss ↦ rw (miss, put_back-same r rs h) refl
]

-- Settling an open reservation takes its hold, and no other, out of its budget.
pub open_of-put_back :
    (n : Name) (r : BudgetReservation) (rs : List BudgetReservation)
    → r.settled ≡ false
    → IsOnly r rs
    → open_of n (put_back (record r { settled = true }) rs)
      ≡ (if is_of n r then delete r.hold_id (open_of n rs) else open_of n rs)
unfolding open_of delete
open_of-put_back n r [] fresh h = ground arith
open_of-put_back n r (q ∷ rs) fresh (same, h) = elim (Bool-cases (nat_beq q.hold_id r.hold_id)) [
  | inl hit ↦
      let here : q ≡ r = same (ground arith) in
      rw here (ground (arith, open_of-put_back n r rs fresh h))
  | inr miss ↦ ground (arith, open_of-put_back n r rs fresh h)
]
