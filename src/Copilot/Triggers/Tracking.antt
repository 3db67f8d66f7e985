-- ===== src/Copilot/Triggers/Tracking.antt =====
-- Copilots do not set each other off, and are not counted among those who are seen.
use theokit_plugins.Common.{
  ℕ, ◌-◌, ◌≤◌, String, true, false, Option, none, some, List, [], ◌∷◌, any, ltb, string_eq,
  codes_eq, ◌≡◌, ◌≢◌, ◌↔◌, refl, arith, All, Option-cases, Bool-cases, inl, inr,
}
use theokit_plugins.Common.Assoc.{get, values, Each, Each-set, Each-delete, Each-get}
use theokit_plugins.Copilot.Triggers.{
  Frame, joined, left, presence_changed, yjs_update, yjs_awareness, broadcasted, connection_of,
  CopilotTrigger, is_copilot, Tracker, Trackers, or_none_seen, forget, see, track, evaluate,
  nobody_active, check,
}

-- Nobody who is tracked is a copilot.
abbrev pub IsHuman : Tracker → Type 0
IsHuman = Each (λ c last_seen. is_copilot c ≡ false)

abbrev pub AllHuman : Trackers → Type 0
AllHuman = Each (λ room t. IsHuman t)

-- Frames of rooms, as they come in.
unfoldable pub run_frames : List CopilotTrigger → List (Frame × (String × ℕ)) → Trackers → Trackers
run_frames triggers [] trackers = trackers
run_frames triggers ((frame, (room, now)) ∷ rest) trackers =
    run_frames triggers rest (evaluate triggers frame room now trackers).1

or_none_seen-IsHuman :
    (room : String) (trackers : Trackers)
    → AllHuman trackers
    → IsHuman (or_none_seen (get room trackers))
or_none_seen-IsHuman room trackers h = elim (Option-cases (get room trackers)) [
  | inl missing ↦ rw missing tt
  | inr (t, found) ↦ rw found (Each-get (λ room t. IsHuman t) room trackers h found)
]

see-AllHuman :
    (room : String) (c : List ℕ) (now : ℕ) (trackers : Trackers)
    → is_copilot c ≡ false
    → AllHuman trackers
    → AllHuman (see room c now trackers)
see-AllHuman room c now trackers human h =
    Each-set (λ room t. IsHuman t) room _ trackers h
      (Each-set (λ c last_seen. is_copilot c ≡ false) c now _ (or_none_seen-IsHuman room trackers h)
        human)

forget-AllHuman :
    (room : String) (c : List ℕ) (trackers : Trackers)
    → AllHuman trackers
    → AllHuman (forget room c (get room trackers) trackers)
forget-AllHuman room c trackers h = elim (Option-cases (get room trackers)) [
  | inl missing ↦ rw missing h
  | inr (t, found) ↦ rw found (
      Each-set (λ room t. IsHuman t) room _ trackers h
        (Each-delete (λ c last_seen. is_copilot c ≡ false) c t
          (Each-get (λ room t. IsHuman t) room trackers h found)))
]

track-AllHuman :
    (room : String) (frame : Frame) (now : ℕ) (trackers : Trackers)
    → is_copilot (connection_of frame) ≡ false
    → AllHuman trackers
    → AllHuman (track room frame now trackers)
track-AllHuman room (joined c) now trackers human h = see-AllHuman room c now trackers human h
track-AllHuman room (left c) now trackers human h = forget-AllHuman room c trackers h
track-AllHuman room (presence_changed c) now trackers human h =
    see-AllHuman room c now trackers human h
track-AllHuman room (yjs_update c) now trackers human h = h
track-AllHuman room (yjs_awareness c) now trackers human h = h
track-AllHuman room (broadcasted c event) now trackers human h = h

-- A frame of a copilot's connection sets nothing off and is not tracked; after any frames, nobody
-- who is tracked is a copilot.
pub evaluate-AllHuman :
    (triggers : List CopilotTrigger) (frame : Frame) (room : String) (now : ℕ) (trackers : Trackers)
    → AllHuman trackers
    → (is_copilot (connection_of frame) ≡ true
        → evaluate triggers frame room now trackers ≡ ([], trackers))
      × AllHuman (evaluate triggers frame room now trackers).1
unfolding evaluate
evaluate-AllHuman triggers frame room now trackers h =
    elim (Bool-cases (is_copilot (connection_of frame))) [
      | inl copilot ↦ rw copilot ((λ e. refl), h)
      | inr human ↦ rw human ((λ e. cc), track-AllHuman room frame now trackers human h)
    ]

any-idle :
    (now idle_ms : ℕ) (t : Tracker)
    → (any (λ last_seen. ltb (now - last_seen) idle_ms) (values t) ≡ false)
      ↔ All (λ p. idle_ms ≤ now - p.1) t
any-idle now idle_ms [] = ((λ e. tt), (λ h. refl))
any-idle now idle_ms ((c, last_seen) ∷ t) = ground (arith, any-idle now idle_ms t)

nobody_active-idle :
    (now idle_ms : ℕ) (o : Option Tracker)
    → (nobody_active now idle_ms o ≡ true)
      ↔ ((or_none_seen o ≢ []) × All (λ p. idle_ms ≤ now - p.1) (or_none_seen o))
nobody_active-idle now idle_ms none = ((λ e. cc), (λ h. absurd (h.0 refl)))
nobody_active-idle now idle_ms (some []) = ((λ e. cc), (λ h. absurd (h.0 refl)))
nobody_active-idle now idle_ms (some (t ∷ ts)) = ground (arith, any-idle now idle_ms (t ∷ ts))

-- The idle check calls back exactly if somebody is tracked in the room and all who are were last
-- seen at least the trigger's time ago.
pub check-idle :
    (room : String) (idle_ms now : ℕ) (trackers : Trackers)
    → (check room idle_ms now trackers ≡ true) ↔ (
        (or_none_seen (get room trackers) ≢ [])
        × All (λ p. idle_ms ≤ now - p.1) (or_none_seen (get room trackers)))
unfolding check
check-idle room idle_ms now trackers = nobody_active-idle now idle_ms (get room trackers)
