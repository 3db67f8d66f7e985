-- ===== src/Copilot/Runtime/Activation.antt =====
-- A registration is subscribed once, however often it is activated.
use theokit_plugins.Common.{
  ℕ, Bool, true, Option, none, some, List, ◌≡◌, refl, ◌⊎◌, inl, inr, Option-cases,
}
use theokit_plugins.Common.Async.{Attempt, returned, threw, Ends}
use theokit_plugins.Copilot.Budget.{Sdk, PerRoom}
use theokit_plugins.Copilot.Dispatch.{Dispatcher}
use theokit_plugins.Copilot.Member.{join}
use theokit_plugins.Copilot.Run.{Setup}
use theokit_plugins.Copilot.Triggers.{CopilotTrigger}
use theokit_plugins.Copilot.Runtime.{
  CopilotVoiceConfig, Host, Registration, ActivateError, idle_trigger, with_idle, subscribe,
  when_joined, when_peers, ensure_voice_peer, ensure_canvas_peer, activate,
}

module _ {P S H E F : Type 0} (sdk : Sdk S E) (config : Option PerRoom) (setup : Setup P E F)
    (host : Host P H F) (triggers : List CopilotTrigger) (dispatcher : Dispatcher) where
  -- The registration listens: to its room, and as an active one.
  abbrev pub IsUp : Registration P S H → Type 0
  IsUp y = ((h : H) × (y.unsubscribe_room ≡ some h)) × (y.active ≡ true)

  -- What an activation that throws leaves of the registration.
  abbrev pub IsDormant : (before after : Registration P S H) → Type 0
  IsDormant before after =
      (after.active ≡ before.active)
      × (after.unsubscribe_room ≡ none)
      × (after.unschedule_idle ≡ before.unschedule_idle)
      × (after.session.money ≡ before.session.money)

  with_idle-IsUp :
      (o : Option ℕ) (x : Registration P S H)
      → IsUp x
      → IsUp (with_idle sdk config setup host triggers dispatcher o x)
  with_idle-IsUp none x h = h
  with_idle-IsUp (some ms) x h = h

  when_joined-Ends :
      (p : Attempt F Unit × (Bool × P)) (x : Registration P S H)
      → x.unsubscribe_room ≡ none
      → Ends
          (λ u. IsUp)
          (λ e. IsDormant x)
          (when_joined sdk config setup host triggers dispatcher p x)
  unfolding subscribe
  when_joined-Ends (threw e, room) x h = (refl, h, refl, refl)
  when_joined-Ends (returned u, room) x h =
      with_idle-IsUp (idle_trigger triggers) _ ((_, refl), refl)

  when_peers-Ends :
      (v c : Attempt (ActivateError F) Bool) (x : Registration P S H)
      → x.unsubscribe_room ≡ none
      → Ends
          (λ u. IsUp)
          (λ e. IsDormant x)
          (when_peers sdk config setup host triggers dispatcher v c x)
  when_peers-Ends (threw e) c x h = (refl, h, refl, refl)
  when_peers-Ends (returned b) (threw e) x h = (refl, h, refl, refl)
  when_peers-Ends (returned b) (returned d) x h =
      when_joined-Ends (join setup.provider setup.copilot x.session.room) x h

  activated_again :
      (voice : Option CopilotVoiceConfig) (canvas : Option Bool) (y : Registration P S H) (h : H)
      → y.unsubscribe_room ≡ some h
      → activate sdk config setup host triggers dispatcher voice canvas y ≡ (returned tt, y)
  unfolding activate
  activated_again voice canvas y h e = rw e refl

  activated_first :
      (voice : Option CopilotVoiceConfig) (canvas : Option Bool) (x : Registration P S H)
      → x.unsubscribe_room ≡ none
      → activate sdk config setup host triggers dispatcher voice canvas x
        ≡ when_peers sdk config setup host triggers dispatcher
            (ensure_voice_peer sdk config setup host triggers dispatcher voice)
            (ensure_canvas_peer sdk config setup host triggers dispatcher canvas)
            x
  unfolding activate
  activated_first voice canvas x e = rw e refl

  -- An activation that returns leaves a registration that listens to its room and is active, and
  -- one that throws leaves it as inactive and deaf as before, with its budgets untouched; where a
  -- registration listens already, an activation changes nothing.
  pub activate-Ends :
      (voice : Option CopilotVoiceConfig) (canvas : Option Bool) (x : Registration P S H)
      → ((x.unsubscribe_room ≡ none)
          × Ends
              (λ u. IsUp)
              (λ e. IsDormant x)
              (activate sdk config setup host triggers dispatcher voice canvas x))
        ⊎ (((h : H) × (x.unsubscribe_room ≡ some h))
            × (activate sdk config setup host triggers dispatcher voice canvas x
                ≡ (returned tt, x)))
  unfolding activate
  activate-Ends voice canvas x = elim (Option-cases x.unsubscribe_room) [
    | inl deaf ↦ inl (deaf, rw (activated_first voice canvas x deaf) (when_peers-Ends _ _ x deaf))
    | inr (h, listening) ↦ inr ((h, listening), activated_again voice canvas x h listening)
  ]
