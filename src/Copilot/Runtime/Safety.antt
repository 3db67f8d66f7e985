-- ===== src/Copilot/Runtime/Safety.antt =====
-- What the tasks of a registration may do, by its state.
use theokit_plugins.Common.{
  ℕ, String, Bool, true, false, Option, none, some, List, [], ◌∷◌, ◌≡◌, refl, ap, ◌∙◌, inl, inr,
  Bool-cases, any, if◌then◌else◌, ◌==◌, string_eq,
}
use theokit_plugins.Common.Async.{Keeps, Keeps-bind}
use theokit_plugins.Copilot.Budget.{Sdk, IsNamed, PerRoom, Bridge}
use theokit_plugins.Copilot.Dispatch.{Dispatcher, Rota, apply_dispatcher, copilots_in_room}
use theokit_plugins.Copilot.Member.{leave}
use theokit_plugins.Copilot.Run.{Setup, Session, run_agent}
use theokit_plugins.Copilot.Run.Holds.{IsFresh, IsKept, run_agent-IsKept}
use theokit_plugins.Copilot.Prompt.{Action, suggest}
use theokit_plugins.Copilot.Triggers.{CopilotTrigger, Trackers, evaluate}
use theokit_plugins.Copilot.Runtime.{
  Arrival, Task, frame_task, idle_task, Host, Registration, action_of, run_matches, if_chosen,
  if_matched, handle_frame, handle_idle, run_task, run_tasks, drain, stop_listening, deactivate,
  if_there, UnderWay, finished,
}

module _ {P S H E F : Type 0} (sdk : Sdk S E) (config : Option PerRoom) (setup : Setup P E F)
    (host : Host P H F) (triggers : List CopilotTrigger) (dispatcher : Dispatcher) where
  run_task-inactive :
      (t : Task) (x : Registration P S H)
      → x.active ≡ false
      → run_task sdk config setup host triggers dispatcher t x ≡ x
  unfolding handle_frame handle_idle
  run_task-inactive (frame_task a) x h = rw h refl
  run_task-inactive (idle_task json) x h = rw h refl

  -- A registration that is not active runs none of its tasks.
  pub run_tasks-inactive :
      (ts : List Task) (x : Registration P S H)
      → x.active ≡ false
      → run_tasks sdk config setup host triggers dispatcher ts x ≡ x
  unfolding run_tasks
  run_tasks-inactive [] x h = refl
  run_tasks-inactive (t ∷ ts) x h = rw (run_task-inactive t x h) (run_tasks-inactive ts x h)

  module _ (named_sdk : IsNamed sdk) (b : Bridge) where
    abbrev pub HasHolds : Session P S → Type 0
    HasHolds s = IsKept b s.money.0

    run_agent-Keeps :
        (frame_text : Option (List ℕ)) (json : List ℕ) (action : Action)
        → Keeps HasHolds (run_agent sdk config setup frame_text json action)
    run_agent-Keeps frame_text json action s (same, fresh) =
        let (same', fresh') =
          run_agent-IsKept sdk named_sdk config setup frame_text json action s fresh in
        ((λ n. same' n ∙ same n), fresh')

    run_matches-Keeps :
        (ts : List CopilotTrigger) (a : Arrival)
        → Keeps HasHolds (run_matches sdk config setup host triggers dispatcher ts a)
    unfolding run_matches
    run_matches-Keeps [] a = (λ s h. h)
    run_matches-Keeps (t ∷ ts) a =
        Keeps-bind HasHolds (run_agent sdk config setup a.frame_text a.json (action_of t))
          (λ u. run_matches sdk config setup host triggers dispatcher ts a)
          (run_agent-Keeps a.frame_text a.json (action_of t)) (λ u. run_matches-Keeps ts a)

    chosen-Keeps :
        (ts : List CopilotTrigger) (a : Arrival) (p : List String × Rota) (x : Registration P S H)
        → HasHolds x.session
        → HasHolds (if_chosen sdk config setup host triggers dispatcher ts a p x).session
    chosen-Keeps ts a p x h = elim (Bool-cases (any (λ id. id == setup.copilot.id) p.0)) [
      | inl ours ↦ rw ours (run_matches-Keeps ts a x.session h)
      | inr others ↦ rw others h
    ]

    matched-Keeps :
        (a : Arrival) (p : List CopilotTrigger × Trackers) (x : Registration P S H)
        → HasHolds x.session
        → HasHolds (if_matched sdk config setup host triggers dispatcher a p x).session
    matched-Keeps a ([], trackers) x h = h
    matched-Keeps a (t ∷ ts, trackers) x h =
        chosen-Keeps (t ∷ ts) a
          (apply_dispatcher dispatcher (copilots_in_room setup.copilot.room_id x.registry)
            setup.copilot.room_id a.number x.rota)
          (record x { trackers = trackers }) h

    branch-Keeps :
        (c : Bool) (x y : Registration P S H)
        → HasHolds x.session
        → HasHolds y.session
        → HasHolds (if c then x else y).session
    branch-Keeps true x y h k = h
    branch-Keeps false x y h k = k

    run_task-Keeps :
        (t : Task) (x : Registration P S H)
        → HasHolds x.session
        → HasHolds (run_task sdk config setup host triggers dispatcher t x).session
    unfolding handle_frame handle_idle
    run_task-Keeps (frame_task a) x h =
        branch-Keeps x.active _ x
          (matched-Keeps a (evaluate triggers a.frame setup.copilot.room_id a.now x.trackers) x h) h
    run_task-Keeps (idle_task json) x h =
        branch-Keeps x.active
          (record x { session = (run_agent sdk config setup none json suggest x.session).1 }) x
          (run_agent-Keeps none json suggest x.session h) h

    pub run_tasks-Keeps :
        (ts : List Task) (x : Registration P S H)
        → HasHolds x.session
        → HasHolds (run_tasks sdk config setup host triggers dispatcher ts x).session
    unfolding run_tasks
    run_tasks-Keeps [] x h = h
    run_tasks-Keeps (t ∷ ts) x h = run_tasks-Keeps ts _ (run_task-Keeps t x h)

  -- After any tasks, however their runs ended, every budget has the holds that it had before them.
  pub run_tasks-IsKept :
      (named_sdk : IsNamed sdk) (ts : List Task) (x : Registration P S H)
      → IsFresh x.session.money.0
      → IsKept x.session.money.0
          (run_tasks sdk config setup host triggers dispatcher ts x).session.money.0
  run_tasks-IsKept named_sdk ts x fresh =
      run_tasks-Keeps named_sdk x.session.money.0 ts x ((λ n. refl), fresh)

  -- The world after the host is told to end what the handle stands for.
  abbrev pub told : (H → P → P) → Option H → P → P
  told f none w = w
  told f (some h) w = f h w

  -- The host ended the subscription of the room, and then the idle check.
  abbrev pub unheard : Registration P S H → Session P S
  unheard x =
      let room = x.session.room in
      let s = x.session in
      record s {
        room = (
          room.0,
          told host.unschedule x.unschedule_idle (told host.unsubscribe x.unsubscribe_room room.1),
        );
      }

  if_there-session :
      (f : H → P → P) (h : Option H) (x : Registration P S H)
      → (if_there sdk config setup host triggers dispatcher f h x).session
        ≡ record { room = (x.session.room.0, told f h x.session.room.1); money = x.session.money }
  if_there-session f none x = refl
  if_there-session f (some handle) x = refl

  stop_listening-session :
      (x : Registration P S H)
      → (stop_listening sdk config setup host triggers dispatcher x).session ≡ unheard x
  unfolding stop_listening
  stop_listening-session x =
      let y =
        if_there sdk config setup host triggers dispatcher host.unsubscribe x.unsubscribe_room x in
      if_there-session host.unschedule x.unschedule_idle y
      ∙ ap
          (λ (s : Session P S). record {
            room = (s.room.0, told host.unschedule x.unschedule_idle s.room.1);
            money = s.money;
          })
          (if_there-session host.unsubscribe x.unsubscribe_room x)

  leave-out : (room : Bool × P) → (leave setup.provider setup.copilot room).1.0 ≡ false
  unfolding leave
  leave-out (true, w) = refl
  leave-out (false, w) = refl

  -- Nobody is told of frames or idleness any more, nothing waits, and the member is out.
  pub record IsDown (x : Registration P S H) : Type 0 where
    pub inactive : x.active ≡ false
    pub deaf : x.unsubscribe_room ≡ none
    pub untimed : x.unschedule_idle ≡ none
    pub idle : x.queue ≡ []
    pub out : x.session.room.0 ≡ false

  -- The session after the member has left.
  abbrev pub left_room : Session P S → Session P S
  left_room s = record s { room = (leave setup.provider setup.copilot s.room).1 }

  -- However leaving the room ends, a registration that is deactivated is down. Its session is that
  -- of one whose subscription and idle check the host ended, where the task that was under way ran
  -- to its end, and which then left the room: the tasks that were waiting did nothing, and tasks
  -- that come later change nothing.
  pub deactivate-IsDown :
      (current : UnderWay sdk config setup host triggers dispatcher) (x : Registration P S H)
      → let y = (deactivate sdk config setup host triggers dispatcher current x).1 in
        IsDown y
        × (y.session
            ≡ left_room (finished sdk config setup host triggers dispatcher current (unheard x)))
        × ((ts : List Task) → run_tasks sdk config setup host triggers dispatcher ts y ≡ y)
  unfolding deactivate stop_listening drain
  deactivate-IsDown current x =
      let y = stop_listening sdk config setup host triggers dispatcher x in
      let done = finished sdk config setup host triggers dispatcher current in
      let z = record y { session = done y.session } in
      rw (run_tasks-inactive y.queue z refl) (
        record {
          inactive = refl;
          deaf = refl;
          untimed = refl;
          idle = refl;
          out = leave-out (done y.session).room;
        },
        ap (λ s. left_room (done s)) (stop_listening-session x),
        (λ ts. run_tasks-inactive ts _ refl),
      )
