-- ===== src/Copilot/Triggers.antt =====
-- packages/plugin-copilot/src/internal/trigger-evaluator.ts. Texts that are cut are code points;
-- the time of a call, in milliseconds, is an argument of it.
pub mod Tracking
use theokit_plugins.Common.{
  ℕ, ◌-◌, String, Bool, true, false, not, Option, none, some, List, [], ◌∷◌, ◌&&◌, any, drop, ltb,
  if◌then◌else◌, ◌==◌, string_eq, codes_eq,
}
use theokit_plugins.Common.Assoc.{Assoc, get, set, delete, values}
use theokit_plugins.Common.Text.{codes, begins}
use theokit_plugins.Copilot.Prompt.{Action}

-- `CopilotFrame`; presences, payloads and bytes are not read here.
pub data Frame : Type 0 where
  joined left presence_changed yjs_update yjs_awareness : (connection : List ℕ) → Frame
  broadcasted : (connection event : List ℕ) → Frame

abbrev pub connection_of : Frame → List ℕ
connection_of (joined c) = c
connection_of (left c) = c
connection_of (presence_changed c) = c
connection_of (yjs_update c) = c
connection_of (yjs_awareness c) = c
connection_of (broadcasted c event) = c

-- `CopilotTrigger`; `on_event` has the text after `on`. The name of a tool is not read here.
pub data CopilotTrigger : Type 0 where
  on_event : (on : List ℕ) → Action → CopilotTrigger
  presence_idle : (idle_ms : ℕ) → CopilotTrigger
  custom : (filter : Frame → Bool) → Action → CopilotTrigger

-- `COPILOT_CONNECTION_PREFIX`
abbrev pub is_copilot : List ℕ → Bool
is_copilot connection = begins (codes "copilot:") connection

abbrev event_is : List ℕ → Frame → Bool
event_is name (broadcasted c event) = event == name
event_is name frame = false

unfoldable pub matches_trigger : CopilotTrigger → Frame → Bool
matches_trigger (custom f action) frame = f frame
matches_trigger (presence_idle ms) frame = false
matches_trigger (on_event on action) frame =
    begins (codes "broadcast:") on && event_is (drop 10 on) frame

abbrev pub Tracker : Type 0
Tracker = Assoc (List ℕ) ℕ

-- `idleTrackers`, by room
abbrev pub Trackers : Type 0
Trackers = Assoc String Tracker

abbrev pub or_none_seen : Option Tracker → Tracker
or_none_seen none = []
or_none_seen (some t) = t

abbrev pub forget : String → List ℕ → Option Tracker → Trackers → Trackers
forget room c none trackers = trackers
forget room c (some t) trackers = set room (delete c t) trackers

abbrev pub see : String → List ℕ → ℕ → Trackers → Trackers
see room c now trackers = set room (set c now (or_none_seen (get room trackers))) trackers

abbrev pub track : String → Frame → ℕ → Trackers → Trackers
track room (joined c) now trackers = see room c now trackers
track room (presence_changed c) now trackers = see room c now trackers
track room (left c) now trackers = forget room c (get room trackers) trackers
track room frame now trackers = trackers

-- The triggers that match, in order.
unfoldable pub matching : List CopilotTrigger → Frame → List CopilotTrigger
unfolding matches_trigger
matching [] frame = []
matching (t ∷ ts) frame =
    let rest = matching ts frame in if matches_trigger t frame then t ∷ rest else rest

unfoldable pub evaluate :
    List CopilotTrigger → Frame → String → ℕ → Trackers → List CopilotTrigger × Trackers
unfolding matching
evaluate triggers frame room now trackers =
    if is_copilot (connection_of frame)
    then ([], trackers)
    else (matching triggers frame, track room frame now trackers)

abbrev pub nobody_active : ℕ → ℕ → Option Tracker → Bool
nobody_active now idle_ms none = false
nobody_active now idle_ms (some []) = false
nobody_active now idle_ms (some (t ∷ ts)) =
    not (any (λ last_seen. ltb (now - last_seen) idle_ms) (values (t ∷ ts)))

-- `check` of `scheduleIdleCheck`: whether `onIdle` is called.
unfoldable pub check : String → ℕ → ℕ → Trackers → Bool
check room idle_ms now trackers = nobody_active now idle_ms (get room trackers)
