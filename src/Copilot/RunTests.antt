-- ===== src/Copilot/RunTests.antt =====
-- An agent of two events over a provider that writes what it is told, and the theorems at it.
use theokit_plugins.Common.{
  ℕ, String, true, false, none, some, List, [], ◌∷◌, ◌≡◌, refl, codes_eq, string_eq, nat_eq, ◌⊎◌,
}
use theokit_plugins.Common.Assoc.{get, set, delete}
use theokit_plugins.Common.Async.{Attempt, returned, threw, Ends}
use theokit_plugins.Common.Text.{codes}
use theokit_plugins.Copilot.Name.{
  budget_name_for, derived_name, hash_from, base36, dashed, undash, sdk_name_ok,
}
use theokit_plugins.Copilot.Budget.{
  held_for, reserve, release, reconcile, limits_from, drop_hold, hold, handle_for,
  assert_within_limits, reserve_enabled, first_short,
}
use theokit_plugins.Copilot.Cost.{split_at_slash, split_model_id, settle_cost}
use theokit_plugins.Copilot.Dispatch.{first_wins, apply_dispatcher, copilots_in_room, advance}
use theokit_plugins.Copilot.Member.{
  RealtimeProvider, join, leave, set_typing, broadcast_message, broadcast_event,
}
use theokit_plugins.Copilot.Prompt.{
  respond, frame_prompt, frame_untrusted, sanitized, strip, strip_once, remove_marks,
}
use theokit_plugins.Copilot.Triggers.{
  broadcasted, CopilotTrigger, on_event, presence_idle, evaluate, matches_trigger, matching,
}
use theokit_plugins.Copilot.Run.{
  partial, complete, ended, yielded, Setup, Session, consume, conclude, invoke, fail, wind_up,
  with_reservation, run_agent, RunError,
}
use theokit_plugins.Copilot.Run.Holds.{IsFresh, IsKept, run_agent-IsKept}
use theokit_plugins.Copilot.Run.Charge.{IsRefusedOrPaid, run_agent-IsRefusedOrPaid}
use theokit_plugins.Copilot.Runtime.{
  Arrival, Task, frame_task, idle_task, Host, Registration, run_matches, handle_frame, handle_idle,
  run_tasks, drain, finished, stop_listening, deactivate, activate, subscribe,
}
use theokit_plugins.Copilot.Runtime.Safety.{
  IsDown, left_room, unheard, run_tasks-IsKept, deactivate-IsDown,
}
use theokit_plugins.Copilot.Runtime.Activation.{IsUp, IsDormant, activate-Ends}
use theokit_plugins.Copilot.Tests.{small_sdk, small_sdk-IsNamed, per_room, empty}

abbrev Log : Type 0
Log = List String

abbrev told : String → Log → Attempt String (Unit {0}) × Log
told s log = (returned tt, s ∷ log)

abbrev provider : RealtimeProvider Log String
provider = record {
  join_room = λ room id fields. told "join";
  leave_room = λ room id. told "leave";
  broadcast = λ room id event fields. told event;
  update_presence = λ room id fields. told "presence";
}

abbrev setup : Setup Log String String
setup = record {
  provider = provider;
  copilot = record { id = "helper"; room_id = "lobby"; name = "Helper"; identity = [] };
  model = codes "a/b";
  api_key = returned none;
  stream_object = λ prompt key. yielded partial (
      yielded
        (complete (some (record { text = some "hi"; printed = "" }))
          (some (record { input_tokens = none; output_tokens = none; cost_usd = some 2 })))
        ended);
  compute_cost = λ tokens provider model. threw "no price";
  on_response = λ text. told "response";
  estimated_usd = 4;
  error_fields = λ e. [];
  message_of = λ e. "";
}

abbrev start : Session Log ℕ
start = record { room = (true, []); money = (empty, 3) }

start-IsFresh : IsFresh start.money.0
unfolding get
start-IsFresh n = tt

running : Unit {0}
unfolding run_agent with_reservation invoke fail wind_up consume conclude set_typing
    broadcast_message broadcast_event reserve reserve_enabled release reconcile handle_for
    assert_within_limits first_short hold drop_hold held_for get set delete budget_name_for
    derived_name hash_from base36 dashed undash sdk_name_ok limits_from frame_prompt frame_untrusted
    sanitized strip strip_once remove_marks settle_cost split_model_id split_at_slash run_tasks
    run_matches handle_frame handle_idle evaluate matches_trigger matching apply_dispatcher advance
    copilots_in_room drain stop_listening deactivate activate subscribe join leave
running = tt

-- The reported cost of 2 is charged, not the estimate of 4.
run_agent_test :
    (run_agent small_sdk (some per_room) setup (some (codes "hello")) [] respond start).1 ≡ record {
      room = (true, "presence" ∷ "response" ∷ "message" ∷ "presence" ∷ "presence" ∷ []);
      money = (
        record {
          holds = (derived_name (codes "helper") (codes "lobby"), []) ∷ [];
          next_hold_id = 2;
        },
        5,
      );
    }
unfolding running
run_agent_test = refl

run_agent-IsKept_example :
    IsKept empty
      (run_agent small_sdk (some per_room) setup (some (codes "hello")) [] respond start).1.money.0
run_agent-IsKept_example =
    run_agent-IsKept small_sdk small_sdk-IsNamed (some per_room) setup (some (codes "hello")) []
      respond start start-IsFresh

run_agent-IsRefusedOrPaid_example :
    IsRefusedOrPaid small_sdk per_room setup
      (frame_prompt (some (codes "hello")) [] respond)
      (reserve small_sdk (some per_room) (codes "helper") (codes "lobby") 4 start.money)
      (run_agent small_sdk (some per_room) setup (some (codes "hello")) [] respond start)
run_agent-IsRefusedOrPaid_example =
    run_agent-IsRefusedOrPaid small_sdk per_room setup small_sdk-IsNamed (some (codes "hello")) []
      respond start

abbrev host : Host Log ℕ String
host = record {
  subscribe_room = λ room log. (1, "subscribe" ∷ log);
  unsubscribe = λ h log. "unsubscribe" ∷ log;
  schedule_idle = λ room ms log. (2, "schedule" ∷ log);
  unschedule = λ h log. "unschedule" ∷ log;
  import_voice = threw "no module";
  import_canvas = threw "no module";
}

abbrev triggers : List CopilotTrigger
triggers = on_event (codes "broadcast:question") respond ∷ presence_idle 5000 ∷ []

abbrev asks : List ℕ → Arrival
asks who = record {
  frame = broadcasted who (codes "question");
  number = 7;
  frame_text = some (codes "hello");
  json = [];
  now = 9;
}

-- A registration that is up, with a frame and an idle task that wait.
abbrev up : Registration Log ℕ ℕ
up = record {
  session = start;
  active = true;
  unsubscribe_room = some 1;
  unschedule_idle = some 2;
  queue = frame_task (asks (codes "ann")) ∷ idle_task [] ∷ [];
  trackers = [];
  rota = record { cursors = []; decisions = [] };
  registry = ("helper", "lobby") ∷ [];
}

abbrev down : Registration Log ℕ ℕ
down = record up { active = false; unsubscribe_room = none; unschedule_idle = none; queue = [] }

-- Two runs, of 2 each, have been charged.
run_tasks_test :
    (run_tasks small_sdk (some per_room) setup host triggers first_wins up.queue up).session.money.1
    ≡ 7
unfolding running
run_tasks_test = refl

run_tasks-IsKept_example :
    IsKept empty
      (run_tasks small_sdk
        (some per_room)
        setup
        host
        triggers
        first_wins
        up.queue
        up).session.money.0
run_tasks-IsKept_example =
    run_tasks-IsKept small_sdk (some per_room) setup host triggers first_wins small_sdk-IsNamed
      up.queue up start-IsFresh

-- A run is under way, and will be charged 2.
abbrev under_way : Session Log ℕ → Attempt (RunError String String) Unit × Session Log ℕ
under_way = run_agent small_sdk (some per_room) setup (some (codes "hello")) [] respond

deactivate_test :
    (deactivate small_sdk
      (some per_room)
      setup
      host
      triggers
      first_wins
      (some under_way)
      up).1.session.money.1
    ≡ 5
unfolding running
deactivate_test = refl

deactivate-IsDown_example :
    let y =
      (deactivate small_sdk (some per_room) setup host triggers first_wins (some under_way) up).1 in
    IsDown small_sdk (some per_room) setup host triggers first_wins y
    × (y.session
        ≡ left_room small_sdk (some per_room) setup host triggers first_wins (
            finished small_sdk
              (some per_room)
              setup
              host
              triggers
              first_wins
              (some under_way)
              (unheard small_sdk (some per_room) setup host triggers first_wins up)))
    × ((ts : List Task)
        → run_tasks small_sdk (some per_room) setup host triggers first_wins ts y ≡ y)
deactivate-IsDown_example =
    deactivate-IsDown small_sdk (some per_room) setup host triggers first_wins (some under_way) up

activate-Ends_example :
    ((down.unsubscribe_room ≡ none)
      × Ends
          (λ u. IsUp small_sdk (some per_room) setup host triggers first_wins)
          (λ e. IsDormant small_sdk (some per_room) setup host triggers first_wins down)
          (activate small_sdk (some per_room) setup host triggers first_wins none none down))
    ⊎ (((h : ℕ) × (down.unsubscribe_room ≡ some h))
        × (activate small_sdk (some per_room) setup host triggers first_wins none none down
            ≡ (returned tt, down)))
activate-Ends_example =
    activate-Ends small_sdk (some per_room) setup host triggers first_wins none none down
