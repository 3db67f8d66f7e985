-- ===== src/Copilot/Run.antt =====
-- packages/plugin-copilot/src/internal/runtime.ts, `runAgent`: one answer of a copilot, from the
-- reservation of its cost to the end of its typing. The realtime provider and the host's hook
-- share a state `P`; the SDK's budgets have a state `S`; the agent is the function from a prompt
-- to the events that it yields. Progress is in hundredths.
pub mod Money
pub mod Holds
pub mod Charge
use theokit_plugins.Common.{
  pos, ℕ, suc, ◌*◌, String, Bool, true, false, Option, none, some, List, [], ◌∷◌, if◌then◌else◌,
  leb,
}
use theokit_plugins.Common.Async.{
  Attempt, Async, returned, threw, proceed, caught, finally, pure, throw, ◌>>=◌, ◌>>◌,
}
use theokit_plugins.Common.Text.{codes}
use theokit_plugins.Copilot.Budget.{
  Sdk, PerRoom, BudgetError, BudgetReservation, Bridge, reserve, release, reconcile,
}
use theokit_plugins.Copilot.Cost.{CopilotUsage, SettledCost, TokenUsage, settle_cost}
use theokit_plugins.Copilot.Member.{
  RealtimeProvider, Copilot, Fields, text, Method, set_typing, broadcast_message, broadcast_event,
}
use theokit_plugins.Copilot.Prompt.{Action, respond, suggest, execute_tool, frame_prompt}

-- The `object` of a completion: its `text`, if it has one, and what `String(object)` is.
pub record Completion : Type 0 where
  pub text : Option String
  pub printed : String

pub data AgentEvent : Type 0 where
  partial : AgentEvent
  complete : Option Completion → Option CopilotUsage → AgentEvent

-- What the agent yields, up to its end or its error.
pub data Stream (E : Type 0) : Type 0 where
  ended : Stream E
  failed : E → Stream E
  yielded : AgentEvent → Stream E → Stream E

abbrev pub or_printed : Option String → Completion → String
or_printed none o = o.printed
or_printed (some t) o = t

-- `String(evt.object?.text ?? evt.object ?? '')`
abbrev pub text_of : Option Completion → String
text_of none = ""
text_of (some o) = or_printed o.text o

abbrev pub amount_or : ℕ → Option ℕ → ℕ
amount_or usd none = usd
amount_or usd (some n) = n

abbrev pub action_name : Action → String
action_name = elim [ respond ↦ "respond" | suggest ↦ "suggest" | execute_tool ↦ "execute-tool" ]

abbrev pub non_empty : String → Bool
non_empty String.[] = false
non_empty (String.◌∷◌ c s) = true

pub data RunError (E F : Type 0) : Type 0 where
  of_budget : BudgetError E → RunError E F
  of_host : F → RunError E F

-- What a run reaches: the member's flag with the provider's state, the bridge with the SDK's, and
-- the reservation object of the run.
pub record Turn (P S : Type 0) : Type 0 where
  pub room : Bool × P
  pub money : Bridge × S
  pub reservation : BudgetReservation

-- The same between runs.
pub record Session (P S : Type 0) : Type 0 where
  pub room : Bool × P
  pub money : Bridge × S

abbrev pub host_result : {E F A : Type 0} → Attempt F A → Attempt (RunError E F) A
host_result (returned a) = returned a
host_result (threw e) = threw (of_host e)

abbrev pub budget_result : {E F A : Type 0} → Attempt (BudgetError E) A → Attempt (RunError E F) A
budget_result (returned a) = returned a
budget_result (threw e) = threw (of_budget e)

-- `finalText`, `actualCostUsd`
pub record Heard : Type 0 where
  pub final_text : String
  pub actual_cost_usd : ℕ

-- The runtime's options and what a registration has, apart from the budget's configuration.
pub record Setup (P E F : Type 0) : Type 0 where
  pub provider : RealtimeProvider P F
  pub copilot : Copilot
  pub model : List ℕ
  pub api_key : Attempt F (Option String)
  pub stream_object : (prompt : List ℕ) → (api_key : Option String) → Stream F
  pub compute_cost : TokenUsage → (provider model : List ℕ) → Attempt F SettledCost
  pub on_response : (text : String) → Async P F (Unit {0})
  pub estimated_usd : ℕ
  pub error_fields : BudgetError E → Fields
  pub message_of : RunError E F → String

module _ {P S E F : Type 0} (sdk : Sdk S E) (config : Option PerRoom) (setup : Setup P E F) where
  open setup use {
    provider, copilot, model, api_key, stream_object, compute_cost, on_response, estimated_usd,
    error_fields, message_of,
  }

  abbrev pub Running : Type 0 → Type 0
  Running A = Async (Turn P S) (RunError E F) A

  abbrev pub on_room : Method provider copilot → Running (Unit {0})
  on_room m t = let (r, room) = m t.room in (host_result r, record t { room = room })

  abbrev pub on_host : Async P F (Unit {0}) → Running (Unit {0})
  on_host m t = let (r, w) = m t.room.1 in (host_result r, record t { room = (t.room.0, w) })

  -- A call that settles the reservation, with the reservation as it is after the call.
  abbrev pub settling :
      (BudgetReservation → Async (Bridge × S) (BudgetError E) Unit × BudgetReservation)
      → Running (Unit {0})
  settling f t =
      let (m, r) = f t.reservation in
      let (result, money) = m t.money in
      (budget_result result, record t { money = money; reservation = r })

  abbrev pub progress_of : ℕ → Method provider copilot
  progress_of n = set_typing provider copilot true (some (if leb (n * 10) 99 then n * 10 else 99))

  abbrev pub type_progress : ℕ → Running (Unit {0})
  type_progress n = on_room (progress_of n)

  abbrev pub typing : Bool → Running (Unit {0})
  typing b = on_room (set_typing provider copilot b none)

  abbrev pub hear : Option Completion → Option CopilotUsage → Heard → Heard
  hear o usage heard = record {
    final_text = text_of o;
    actual_cost_usd =
        amount_or heard.actual_cost_usd (settle_cost compute_cost usage model).amount_usd;
  }

  -- `for await (const evt of iter)`, with `chunkCount`.
  unfoldable pub consume : Stream F → (chunks : ℕ) → Heard → Running Heard
  unfolding set_typing settle_cost
  consume ended n heard = pure heard
  consume (failed e) n heard = throw (of_host e)
  consume (yielded partial rest) n heard = type_progress (suc n) >> consume rest (suc n) heard
  consume (yielded (complete o usage) rest) n heard = consume rest n (hear o usage heard)

  abbrev pub given : {A : Type 0} → Attempt F A → Running A
  given r t = (host_result r, t)

  abbrev pub announce : Action → String → Running (Unit {0})
  announce action said =
      on_room
        (broadcast_message provider copilot said (("triggeredBy", text (action_name action)) ∷ []))
      >> on_host (on_response said)

  abbrev pub announced : Action → String → Running (Unit {0})
  announced action said = if non_empty said then announce action said else pure tt

  abbrev pub charge : ℕ → Running (Unit {0})
  charge usd = settling (λ r. reconcile sdk config r (pos usd))

  -- What follows the stream: the charge, then the message if there is one.
  unfoldable pub conclude : Action → Heard → Running (Unit {0})
  unfolding reconcile broadcast_message
  conclude action heard = charge heard.actual_cost_usd >> announced action heard.final_text

  abbrev pub start_typing : Running (Option String)
  start_typing = typing true >> given api_key

  abbrev pub heard_nothing : Heard
  heard_nothing = record { final_text = ""; actual_cost_usd = estimated_usd }

  abbrev pub listen : (prompt : List ℕ) → (key : Option String) → Running Heard
  listen prompt key = consume (stream_object prompt key) 0 heard_nothing

  abbrev pub answer : (prompt : List ℕ) → Action → (key : Option String) → Running (Unit {0})
  answer prompt action key = listen prompt key >>= conclude action

  -- The body of the `try`.
  unfoldable pub invoke : (prompt : List ℕ) → Action → Running (Unit {0})
  unfolding consume conclude set_typing
  invoke prompt action = start_typing >>= answer prompt action

  abbrev pub free_hold : Running (Unit {0})
  free_hold = settling (λ r. release sdk config r)

  abbrev pub tell_error : RunError E F → Running (Unit {0})
  tell_error e =
      on_room
        (broadcast_event provider copilot "agent-error" (("message", text (message_of e)) ∷ []))

  abbrev pub tell_and_throw : RunError E F → Running (Unit {0})
  tell_and_throw e = tell_error e >> throw e

  -- The `catch`.
  unfoldable pub fail : RunError E F → Running (Unit {0})
  unfolding release broadcast_event
  fail e = free_hold >> tell_and_throw e

  -- The `finally`.
  unfoldable pub wind_up : Running (Unit {0})
  unfolding release set_typing
  wind_up = free_hold >> typing false

  unfoldable pub with_reservation : (prompt : List ℕ) → Action → Running (Unit {0})
  unfolding invoke fail wind_up
  with_reservation prompt action t = finally wind_up (caught fail (invoke prompt action t))

  abbrev pub session_of :
      Attempt (RunError E F) Unit × Turn P S → Attempt (RunError E F) Unit × Session P S
  session_of (r, t) = (r, record { room = t.room; money = t.money })

  abbrev pub after_reserve :
      (prompt : List ℕ)
      → Action
      → Bool × P
      → Attempt (BudgetError E) BudgetReservation × (Bridge × S)
      → Attempt (RunError E F) Unit × Session P S
  after_reserve prompt action room (returned r, money) =
      session_of
        (with_reservation prompt action (record { room = room; money = money; reservation = r }))
  after_reserve prompt action room (threw e, money) =
      let (r, room') = broadcast_event provider copilot "budget-exceeded" (error_fields e) room in
      (host_result r, record { room = room'; money = money })

  -- `runAgent`, on a frame that has the text of a broadcast or is `json`.
  unfoldable pub run_agent :
      (frame_text : Option (List ℕ))
      → (json : List ℕ) → Action
      → Async (Session P S) (RunError E F) Unit
  unfolding with_reservation broadcast_event frame_prompt reserve
  run_agent frame_text json action s =
      after_reserve (frame_prompt frame_text json action) action s.room
        (reserve sdk config (codes copilot.id) (codes copilot.room_id) estimated_usd s.money)
