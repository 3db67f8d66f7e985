-- ===== src/Copilot/Runtime.antt =====
-- packages/plugin-copilot/src/internal/runtime.ts: one registration of `CopilotRuntime`, with the
-- queue of its tasks: `activate`, `deactivate`, `_handleFrame`, the idle task and the draining of
-- the queue. The subscription of a room and the timer of the idle check are handles `H` of the
-- host. A call that awaits is taken to end before the next call of the same registration, but for
-- `deactivate`, which may find a task under way and waits for what is left of it.
pub mod Safety
pub mod Activation
use theokit_plugins.Common.{
  ℕ, String, Bool, true, false, Option, none, some, List, [], ◌∷◌, ◌++◌, ◌||◌, if◌then◌else◌, any,
  ◌==◌, string_eq,
}
use theokit_plugins.Common.Assoc.{Assoc}
use theokit_plugins.Common.Async.{Attempt, Async, returned, threw, ◌>>◌, pure}
use theokit_plugins.Copilot.Budget.{Sdk, PerRoom}
use theokit_plugins.Copilot.Dispatch.{Dispatcher, Rota, apply_dispatcher, copilots_in_room}
use theokit_plugins.Copilot.Member.{join, leave}
use theokit_plugins.Copilot.Prompt.{Action, suggest}
use theokit_plugins.Copilot.Run.{Setup, Session, RunError, run_agent}
use theokit_plugins.Copilot.Triggers.{
  Frame, CopilotTrigger, on_event, presence_idle, custom, Trackers, evaluate,
}

-- `CopilotVoiceConfig`: `transcribeWith` and `speakWith`, by whether they are there.
pub record CopilotVoiceConfig : Type 0 where
  pub transcribe_with : Bool
  pub speak_with : Bool

-- A frame as the runtime sees it: the number of its object, its text if it is a broadcast with
-- one, its `JSON.stringify`, and the time when it is handled.
pub record Arrival : Type 0 where
  pub frame : Frame
  pub number : ℕ
  pub frame_text : Option (List ℕ)
  pub json : List ℕ
  pub now : ℕ

pub data Task : Type 0 where
  frame_task : Arrival → Task
  idle_task : (json : List ℕ) → Task

-- What the code calls of the host to be told of frames and of idleness.
pub record Host (W H F : Type 0) : Type 0 where
  pub subscribe_room : (room_id : String) → W → H × W
  pub unsubscribe : H → W → W
  pub schedule_idle : (room_id : String) → (idle_ms : ℕ) → W → H × W
  pub unschedule : H → W → W
  -- `import('@theokit/plugin-voice')` and `import('@theokit/plugin-canvas')`
  pub import_voice : Attempt F (Unit {0})
  pub import_canvas : Attempt F (Unit {0})

-- `CopilotRegistration`, and what the runtime has for it: the queue of the copilot, and the
-- tables of the runtime that its tasks read.
pub record Registration (P S H : Type 0) : Type 0 where
  pub session : Session P S
  pub active : Bool
  pub unsubscribe_room : Option H
  pub unschedule_idle : Option H
  pub queue : List Task
  pub trackers : Trackers
  pub rota : Rota
  pub registry : Assoc String String

pub data ActivateError (F : Type 0) : Type 0 where
  voice_missing canvas_missing join_failed : F → ActivateError F

abbrev pub action_of : CopilotTrigger → Action
action_of (on_event on action) = action
action_of (presence_idle ms) = suggest
action_of (custom filter action) = action

-- The first `presence:idle` trigger.
abbrev pub idle_trigger : List CopilotTrigger → Option ℕ
idle_trigger [] = none
idle_trigger (on_event on action ∷ ts) = idle_trigger ts
idle_trigger (presence_idle ms ∷ ts) = some ms
idle_trigger (custom filter action ∷ ts) = idle_trigger ts

module _ {P S H E F : Type 0} (sdk : Sdk S E) (config : Option PerRoom) (setup : Setup P E F)
    (host : Host P H F) (triggers : List CopilotTrigger) (dispatcher : Dispatcher) where
  abbrev pub Reg : Type 0
  Reg = Registration P S H

  abbrev pub room_id : String
  room_id = setup.copilot.room_id

  -- `for (const match of matches) await this.runAgent(…)`
  unfoldable pub run_matches :
      List CopilotTrigger → Arrival → Async (Session P S) (RunError E F) Unit
  run_matches [] a = pure tt
  run_matches (t ∷ ts) a =
      run_agent sdk config setup a.frame_text a.json (action_of t) >> run_matches ts a

  abbrev pub on_session : Async (Session P S) (RunError E F) Unit → Reg → Reg
  on_session m x = record x { session = (m x.session).1 }

  abbrev pub if_chosen : List CopilotTrigger → Arrival → List String × Rota → Reg → Reg
  if_chosen matches a (chosen, rota) x =
      if any (λ id. id == setup.copilot.id) chosen
      then on_session (run_matches matches a) (record x { rota = rota })
      else record x { rota = rota }

  abbrev pub if_matched : Arrival → List CopilotTrigger × Trackers → Reg → Reg
  if_matched a ([], trackers) x = record x { trackers = trackers }
  if_matched a (t ∷ ts, trackers) x =
      if_chosen (t ∷ ts) a
        (apply_dispatcher dispatcher (copilots_in_room room_id x.registry) room_id a.number x.rota)
        (record x { trackers = trackers })

  -- `_handleFrame`
  unfoldable pub handle_frame : Arrival → Reg → Reg
  unfolding run_matches apply_dispatcher copilots_in_room evaluate
  handle_frame a x =
      if x.active then if_matched a (evaluate triggers a.frame room_id a.now x.trackers) x else x

  -- The task that `onIdle` puts into the queue.
  unfoldable pub handle_idle : List ℕ → Reg → Reg
  unfolding run_agent
  handle_idle json x =
      if x.active then on_session (run_agent sdk config setup none json suggest) x else x

  abbrev pub run_task : Task → Reg → Reg
  run_task (frame_task a) x = handle_frame a x
  run_task (idle_task json) x = handle_idle json x

  -- `enqueue`: behind those that wait.
  unfoldable pub enqueue : Task → Reg → Reg
  enqueue t x = record x { queue = x.queue ++ t ∷ [] }

  -- The chain of `then`s: each task after the other, whether that returned or threw.
  unfoldable pub run_tasks : List Task → Reg → Reg
  unfolding handle_frame handle_idle
  run_tasks [] x = x
  run_tasks (t ∷ ts) x = run_tasks ts (run_task t x)

  -- What is left of the task that is under way, which is past its check of `active`.
  abbrev pub UnderWay : Type 0
  UnderWay = Option (Async (Session P S) (RunError E F) Unit)

  abbrev pub finished : UnderWay → Session P S → Session P S
  finished none s = s
  finished (some rest) s = (rest s).1

  -- `await this.queues.get(copilotId)`: the task that is under way, then those that wait.
  unfoldable pub drain : UnderWay → Reg → Reg
  unfolding run_tasks
  drain current x =
      let after = run_tasks x.queue (record x { session = finished current x.session }) in
      record after { queue = [] }

  abbrev pub peer :
      {A : Type 0} → (F → ActivateError F) → Attempt F A → Attempt (ActivateError F) Bool
  peer missing (returned a) = returned true
  peer missing (threw e) = threw (missing e)

  -- `ensureVoicePeer`
  unfoldable pub ensure_voice_peer : Option CopilotVoiceConfig → Attempt (ActivateError F) Bool
  ensure_voice_peer none = returned false
  ensure_voice_peer (some c) =
      if c.transcribe_with || c.speak_with
      then peer voice_missing host.import_voice
      else returned false

  -- `ensureCanvasPeer`, on `emitArtifacts` of the configuration.
  unfoldable pub ensure_canvas_peer : Option Bool → Attempt (ActivateError F) Bool
  ensure_canvas_peer none = returned false
  ensure_canvas_peer (some emit) =
      if emit then peer canvas_missing host.import_canvas else returned false

  abbrev pub in_room : Bool × P → Reg → Reg
  in_room room x = let s = x.session in record x { session = record s { room = room } }

  abbrev pub on_world : (P → P) → Reg → Reg
  on_world f x = let room = x.session.room in in_room (room.0, f room.1) x

  abbrev pub with_idle : Option ℕ → Reg → Reg
  with_idle none x = x
  with_idle (some ms) x =
      let (handle, w) = host.schedule_idle room_id ms x.session.room.1 in
      let y = on_world (λ _. w) x in record y { unschedule_idle = some handle }

  -- What follows the join.
  unfoldable pub subscribe : Reg → Reg
  subscribe x =
      let (handle, w) = host.subscribe_room room_id x.session.room.1 in
      let y = on_world (λ _. w) x in
      with_idle (idle_trigger triggers) (record y { active = true; unsubscribe_room = some handle })

  abbrev pub when_joined : Attempt F Unit × (Bool × P) → Reg → Attempt (ActivateError F) Unit × Reg
  when_joined (threw e, room) x = (threw (join_failed e), in_room room x)
  when_joined (returned _, room) x = (returned tt, subscribe (in_room room x))

  abbrev pub when_peers :
      (voice canvas : Attempt (ActivateError F) Bool) → Reg → Attempt (ActivateError F) Unit × Reg
  when_peers (threw e) c x = (threw e, x)
  when_peers (returned b) (threw e) x = (threw e, x)
  when_peers (returned b) (returned c) x =
      when_joined (join setup.provider setup.copilot x.session.room) x

  -- `activate`, under the configurations of voice and canvas.
  unfoldable pub activate :
      Option CopilotVoiceConfig → Option Bool → Reg → Attempt (ActivateError F) Unit × Reg
  unfolding subscribe ensure_voice_peer ensure_canvas_peer join
  activate voice canvas x = elim x.unsubscribe_room [
    | some handle ↦ (returned tt, x)
    | none ↦ when_peers (ensure_voice_peer voice) (ensure_canvas_peer canvas) x
  ]

  abbrev pub if_there : (H → P → P) → Option H → Reg → Reg
  if_there f none x = x
  if_there f (some handle) x = on_world (f handle) x

  -- `deactivate` up to the drain.
  unfoldable pub stop_listening : Reg → Reg
  stop_listening x =
      let y = if_there host.unsubscribe x.unsubscribe_room x in
      let z = if_there host.unschedule x.unschedule_idle y in
      record z { active = false; unsubscribe_room = none; unschedule_idle = none }

  -- `deactivate`
  unfoldable pub deactivate : UnderWay → Reg → Attempt F Unit × Reg
  unfolding stop_listening drain leave
  deactivate current x =
      let y = drain current (stop_listening x) in
      let (r, room) = leave setup.provider setup.copilot y.session.room in (r, in_room room y)
