-- ===== src/Copilot/TriggerTests.antt =====
-- Frames of a person and of a copilot, a price table, and the theorems at them.
use theokit_plugins.Common.{
  ◌+◌, ℕ, String, true, false, none, some, List, [], ◌∷◌, ◌≡◌, refl, string_eq, codes_eq,
}
use theokit_plugins.Common.Assoc.{get, set, delete}
use theokit_plugins.Common.Async.{Attempt, returned, threw}
use theokit_plugins.Common.Text.{codes}
use theokit_plugins.Copilot.Prompt.{respond}
use theokit_plugins.Copilot.Member.{RealtimeProvider, Copilot}
use theokit_plugins.Copilot.Triggers.{
  Frame, broadcasted, connection_of, CopilotTrigger, on_event, presence_idle, is_copilot, Trackers,
  matches_trigger, matching, evaluate, check,
}
use theokit_plugins.Copilot.Triggers.Tracking.{AllHuman, evaluate-AllHuman}
use theokit_plugins.Copilot.Cost.{
  CopilotUsage, SettledCost, TokenUsage, split_at_slash, split_model_id, settle_cost,
}
use theokit_plugins.Copilot.Cost.Source.{IsSplit, split_model_id-IsSplit}

runs : Unit {0}
unfolding matches_trigger matching evaluate check split_at_slash split_model_id settle_cost get set
    delete
runs = tt

abbrev triggers : List CopilotTrigger
triggers = on_event (codes "broadcast:question") respond ∷ presence_idle 5000 ∷ []

abbrev asks : List ℕ → Frame
asks who = broadcasted who (codes "question")

abbrev seen : Trackers
seen = ("lobby", (codes "ann", 100) ∷ []) ∷ []

evaluate_test :
    (evaluate triggers (asks (codes "ann")) "lobby" 7 seen
      ≡ (on_event (codes "broadcast:question") respond ∷ [], seen))
    × (evaluate triggers (asks (codes "copilot:b")) "lobby" 7 seen ≡ ([], seen))
    × (check "lobby" 5000 5100 seen ≡ true)
    × (check "lobby" 5000 5099 seen ≡ false)
unfolding runs
evaluate_test = (refl, refl, refl, refl)

evaluate-AllHuman_example :
    (is_copilot (connection_of (asks (codes "copilot:b"))) ≡ true
      → evaluate triggers (asks (codes "copilot:b")) "lobby" 7 seen ≡ ([], seen))
    × AllHuman (evaluate triggers (asks (codes "copilot:b")) "lobby" 7 seen).1
evaluate-AllHuman_example =
    evaluate-AllHuman triggers (asks (codes "copilot:b")) "lobby" 7 seen ((refl, tt), tt)

abbrev model_id : List ℕ
model_id = codes "openrouter/openai/gpt-4o-mini"

split_test : split_model_id model_id ≡ (codes "openrouter", codes "openai/gpt-4o-mini")
unfolding runs
split_test = refl

split_model_id-IsSplit_example : IsSplit model_id (split_model_id model_id)
split_model_id-IsSplit_example = split_model_id-IsSplit model_id

abbrev table : TokenUsage → (provider model : List ℕ) → Attempt String SettledCost
table u provider model = returned (record {
  amount_usd = some u.total_tokens;
  status = "priced";
  source = some "table";
  pricing_version = none;
})

abbrev usage : CopilotUsage
usage = record { input_tokens = some 3; output_tokens = some 4; cost_usd = none }

-- A provider whose state counts the calls that reach it.
abbrev counting : RealtimeProvider ℕ String
counting = record {
  join_room = λ room c fields n. (returned tt, n + 1);
  leave_room = λ room c n. (threw "offline", n + 1);
  broadcast = λ room c event fields n. (returned tt, n + 1);
  update_presence = λ room c fields n. (returned tt, n + 1);
}

abbrev helper : Copilot
helper = record { id = "helper"; room_id = "lobby"; name = "Helper"; identity = [] }
