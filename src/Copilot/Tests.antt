-- ===== src/Copilot/Tests.antt =====
-- A small SDK, a small room, and the theorems at them.
use theokit_plugins.Common.{
  ℕ, ◌+◌, ◌-◌, String, none, some, List, [], ◌∷◌, ◌≡◌, refl, arith, leb, if◌then◌else◌, codes_eq,
  string_eq, nat_eq,
}
use theokit_plugins.Common.Assoc.{get, set, delete}
use theokit_plugins.Common.Async.{Attempt, returned, threw}
use theokit_plugins.Common.Text.{codes}
use theokit_plugins.Copilot.Name.{
  budget_name_for, derived_name, hash_from, base36, dashed, undash, sdk_name_ok,
}
use theokit_plugins.Copilot.Name.Valid.{budget_name_for-total}
use theokit_plugins.Copilot.Budget.{
  Sdk, IsNamed, PerRoom, BudgetHandle, day, Bridge, Name, held_for, reserve, release, reconcile,
  limits_from, drop_hold, hold, handle_for, assert_within_limits, reserve_enabled, first_short,
}
use theokit_plugins.Copilot.Budget.Reserve.{IsOutcome, reserve-IsOutcome}
use theokit_plugins.Copilot.Budget.Ledger.{open_of}
use theokit_plugins.Copilot.Budget.Ledger.Calls.{
  Call, reserve_call, release_call, call, run_calls, owed,
}
use theokit_plugins.Copilot.Budget.Ledger.Backed.{opened}
use theokit_plugins.Copilot.Budget.Ledger.Owed.{promised, held_for-owed}
use theokit_plugins.Copilot.Dispatch.{Rota, round_robin, apply_dispatcher, advance}
use theokit_plugins.Copilot.Dispatch.Rotation.{
  ask, ask_frames, IsRotation, turn_of, ask_frames-IsRotation,
}
use theokit_plugins.Copilot.Prompt.{remove_marks, strip_once, strip, sanitized}
use theokit_plugins.Copilot.Prompt.Fence.{IsClean, sanitized-IsClean}

-- The SDK's state: what is spent, in every budget together.
abbrev pub handle_of : Name → BudgetHandle
handle_of n = record { name = n; limits = record { window = day; limit_usd = 10 } ∷ [] }

abbrev pub small_sdk : Sdk ℕ String
small_sdk = record {
  get_budget = λ n spent. some (handle_of n);
  create = λ n ls spent. (returned (handle_of n), spent);
  remaining_in = λ h w spent. 10 - spent;
  preflight_check =
      λ n usd spent. ((if leb (spent + usd) 10 then returned tt else threw "exceeded"), spent);
  charge_and_check_thresholds = λ n usd spent. (returned tt, spent + usd);
}

abbrev name_in : {E : Type 0} → Attempt E BudgetHandle → Name → Name
name_in (returned h) n = h.name
name_in (threw e) n = n

pub small_sdk-IsNamed : IsNamed small_sdk
small_sdk-IsNamed = record { found = λ n s h e. ground arith; made = λ n ls s t h e. cc }

abbrev pub per_room : PerRoom
per_room = record { daily_usd = some 10; monthly_usd = none; per_request_usd = some 5; limits = [] }

abbrev helper : List ℕ
helper = codes "helper"

abbrev lobby : List ℕ
lobby = codes "Lobby/1"

-- Two are held, the third finds no room, and the first is settled twice.
abbrev calls : List Call
calls =
    reserve_call helper lobby 4
    ∷ reserve_call helper lobby 5
    ∷ reserve_call helper lobby 3
    ∷ release_call 1
    ∷ release_call 1
    ∷ []

name_test : budget_name_for helper lobby ≡ some (derived_name helper lobby)
name_test = budget_name_for-total b'h' (codes "elper") lobby refl

running : Unit {0}
unfolding run_calls call reserve reserve_enabled release reconcile handle_for assert_within_limits
    first_short hold drop_hold held_for open_of get set delete budget_name_for derived_name
    hash_from base36 dashed undash sdk_name_ok limits_from remove_marks strip_once strip sanitized
    ask ask_frames apply_dispatcher advance
running = tt

-- After the calls the second reservation, of 5, is all that is held.
calls_test :
    held_for
      (derived_name helper lobby)
      (run_calls small_sdk per_room calls (opened 0)).bridge.holds
    ≡ 5
unfolding running
calls_test = refl

budget_name_for-total_example : budget_name_for helper lobby ≡ some (derived_name helper lobby)
budget_name_for-total_example = budget_name_for-total b'h' (codes "elper") lobby refl

abbrev pub empty : Bridge
empty = record { holds = []; next_hold_id = 1 }

reserve-IsOutcome_example :
    IsOutcome small_sdk per_room small_sdk-IsNamed helper lobby 4 empty 3
      (reserve small_sdk (some per_room) helper lobby 4 (empty, 3))
reserve-IsOutcome_example =
    reserve-IsOutcome small_sdk per_room small_sdk-IsNamed helper lobby 4 empty 3

held_for-owed_example :
    held_for
      (derived_name helper lobby)
      (run_calls small_sdk per_room calls (opened 0)).bridge.holds
    ≡ promised (derived_name helper lobby) (owed small_sdk per_room calls (opened 0) [])
held_for-owed_example =
    held_for-owed small_sdk per_room small_sdk-IsNamed calls 0 (derived_name helper lobby)

abbrev nested : List ℕ
nested = codes "<<<UNTRUSTED_USER<<<UNTRUSTED_USER_INPUT>>>_INPUT>>>hi"

sanitized_test : sanitized nested ≡ codes "hi"
unfolding running
sanitized_test = refl

sanitized-IsClean_example :
    IsClean (sanitized nested) × (IsClean nested → sanitized nested ≡ nested)
sanitized-IsClean_example = sanitized-IsClean nested

abbrev fresh_rota : Rota
fresh_rota = record { cursors = []; decisions = [] }

-- Frame 7 goes to the first copilot, 8 to the second, 9 to the first again.
ask_frames_test :
    (ask_frames ("a" ∷ "b" ∷ []) "room" (7 ∷ 8 ∷ 9 ∷ []) fresh_rota).0
    ≡ (("a" ∷ []) ∷ ("a" ∷ []) ∷ [])
      ∷ (("b" ∷ []) ∷ ("b" ∷ []) ∷ [])
      ∷ (("a" ∷ []) ∷ ("a" ∷ []) ∷ [])
      ∷ []
unfolding running
ask_frames_test = refl

-- "a" is busy with frame 7 while "b" sees 8, 9 and 10; then "a" sees 8 and 9.
abbrev ask_of : ℕ → Rota → List String × Rota
ask_of frame rota = apply_dispatcher round_robin ("a" ∷ "b" ∷ []) "room" frame rota

abbrev answers_of : List ℕ → Rota → List (List String)
answers_of [] rota = []
answers_of (f ∷ fs) rota = let (chosen, after) = ask_of f rota in chosen ∷ answers_of fs after

-- The answers to "a" about 7, to "b" about 7, 8, 9 and 10, and to "a" about 8 and 9: each of the
-- two is chosen for frame 8 in its own answer, and neither is for frame 9.
interleaved_test :
    answers_of (7 ∷ 7 ∷ 8 ∷ 9 ∷ 10 ∷ 8 ∷ 9 ∷ []) fresh_rota
    ≡ ("a" ∷ []) ∷ ("a" ∷ []) ∷ ("b" ∷ []) ∷ ("a" ∷ []) ∷ ("b" ∷ []) ∷ ("a" ∷ []) ∷ ("b" ∷ []) ∷ []
unfolding running
interleaved_test = refl

ask_frames-IsRotation_example :
    IsRotation
      ("a" ∷ "b" ∷ [])
      (turn_of "room" fresh_rota)
      (ask_frames ("a" ∷ "b" ∷ []) "room" (7 ∷ 8 ∷ 9 ∷ []) fresh_rota).0
unfolding get
ask_frames-IsRotation_example =
    ask_frames-IsRotation "a" "b" [] "room" (8 ∷ 9 ∷ []) 7 fresh_rota (λ d e. cc)
      ((λ e. omega arith), ((λ e. omega arith), tt))
