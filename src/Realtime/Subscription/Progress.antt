-- ===== src/Realtime/Subscription/Progress.antt =====
-- An abort ends a subscription.
use theokit_plugins.Common.{
  suc, true, false, List, [], ◌≡◌, ◌≢◌, inl, inr, refl, subst, ap, arith, Bool-cases, if-both,
  length, leb, ◌++◌, ◌∷◌, ◌≤◌,
}
use theokit_plugins.Realtime.Rooms.{Frame}
use theokit_plugins.Realtime.Subscription.{
  Phase, unstarted, connecting, awaiting, yielded, ended, Subscription, max_queued_frames, on_frame,
  on_abort, finish, turn, Step, begins, abandoned, connects, refused, came, aborts, resumes, pulls,
  closes, Reach,
}
use theokit_plugins.Realtime.Subscription.Sound.{
  IsRunning, IsSubscription, on_abort-IsSubscription, on_frame-IsSubscription,
}
use theokit_plugins.Realtime.Subscription.Runs.{Reach-IsSubscription}

-- The steps of a generator that has its handle: the connection is made, its promise is resolved, or
-- the consumer asks for another frame or goes away.
abbrev pub IsMove : {s t : Subscription} {fs : List Frame} → Step s fs t → Type 0
IsMove (begins aborted at) = ⊥
IsMove (abandoned at) = ⊥
IsMove (connects at) = Unit
IsMove (refused at) = ⊥
IsMove (came f) = ⊥
IsMove aborts = ⊥
IsMove (resumes at up) = Unit
IsMove (pulls at) = Unit
IsMove (closes at) = Unit

-- The generator can move, every move of it ends it, and its handle is released then, once.
pub record IsEnding (s : Subscription) : Type 0 where
  pub can_move : Step s [] (finish s)
  pub ending : (fs : List Frame) (t : Subscription) (m : Step s fs t) → IsMove m → t ≡ finish s
  pub released : (finish s).releases ≡ 1
  pub detached : (finish s).listening ≡ false

-- A stopped generator that runs, its promise resolved, ends at its next move.
ends_at :
    (s : Subscription) (p : Phase)
    → s.phase ≡ p
    → IsRunning p
    → s.waiter ≡ false
    → s.stopped ≡ true
    → Step s [] (finish s)
unfolding turn
ends_at s unstarted at r up done = absurd r
ends_at s ended at r up done = absurd r
ends_at s connecting at r up done = subst (Step s []) (rw done refl) (connects at)
ends_at s awaiting at r up done = subst (Step s []) (rw done refl) (resumes at up)
ends_at s yielded at r up done = subst (Step s []) (rw done refl) (pulls at)

last_turn : (s : Subscription) → s.stopped ≡ true → turn s ≡ finish s
unfolding turn
last_turn s done = rw done refl

-- Every move of a stopped generator is the last.
move-finish :
    (s : Subscription)
    → s.stopped ≡ true
    → (fs : List Frame) (t : Subscription) (m : Step s fs t) → IsMove m
    → t ≡ finish s
unfolding turn
move-finish s done fs t (begins aborted at) m = absurd m
move-finish s done fs t (abandoned at) m = absurd m
move-finish s done fs t (connects at) m = last_turn s done
move-finish s done fs t (refused at) m = absurd m
move-finish s done fs t (came f) m = absurd m
move-finish s done fs t aborts m = absurd m
move-finish s done fs t (resumes at up) m = last_turn s done
move-finish s done fs t (pulls at) m = last_turn s done
move-finish s done fs t (closes at) m = refl

stopped-IsEnding :
    (sent : List Frame) (s : Subscription)
    → IsSubscription sent s
    → IsRunning s.phase
    → s.stopped ≡ true
    → IsEnding s
stopped-IsEnding sent s v running done =
    let up : s.waiter ≡ false = elim (Bool-cases s.waiter) [
      | inl kept ↦ absurd (ground (arith, (v.asleep kept).2, done))
      | inr up ↦ up
    ] in
    let alive : s.phase ≢ ended = λ e. subst IsRunning e running in
    record {
      can_move = ends_at s s.phase refl running up done;
      ending = λ fs t m. move-finish s done fs t m;
      released = ap suc (v.held alive);
      detached = refl;
    }

abort-IsStopped :
    (sent : List Frame) (s : Subscription)
    → IsSubscription sent s
    → IsRunning s.phase
    → (IsRunning (on_abort s).phase) × ((on_abort s).stopped ≡ true)
unfolding on_abort
abort-IsStopped sent s v running =
    if-both (λ (t : Subscription). IsRunning t.phase × (t.stopped ≡ true)) s.listening _ s
      (λ here. (running, refl))
      (λ gone. (
        running,
        elim (v.heard running) [ inl here ↦ absurd (ground (arith, here, gone)) | inr done ↦ done ],
      ))

full-IsStopped :
    (s : Subscription) (f : Frame)
    → IsRunning s.phase
    → max_queued_frames ≤ length s.queue
    → (IsRunning (on_frame f s).phase) × ((on_frame f s).stopped ≡ true)
unfolding on_frame
full-IsStopped s f running full =
    if-both (λ (t : Subscription). IsRunning t.phase × (t.stopped ≡ true)) s.stopped s _
      (λ done. (running, done))
      (λ going.
        if-both (λ (t : Subscription). IsRunning t.phase × (t.stopped ≡ true))
          (leb max_queued_frames (length s.queue)) _ _ (λ over. (running, refl))
          (λ room. absurd (ground (arith, room, full))))

-- A running subscription ends at whatever move its generator makes next, and it can make one, when its signal
-- aborts and when a frame comes while the queue is full; its handle is then released, the first
-- and only time.
pub abort-IsEnding :
    (sent : List Frame) (s : Subscription)
    → Reach sent s
    → IsRunning s.phase
    → IsEnding (on_abort s)
      × ((f : Frame) → max_queued_frames ≤ length s.queue → IsEnding (on_frame f s))
abort-IsEnding sent s reached running =
    let v = Reach-IsSubscription sent s reached in
    let (r, done) = abort-IsStopped sent s v running in
    (
      stopped-IsEnding sent (on_abort s) (on_abort-IsSubscription sent s v) r done,
      λ f full.
          let (r, done) = full-IsStopped s f running full in
          stopped-IsEnding (sent ++ f ∷ []) (on_frame f s) (on_frame-IsSubscription sent f s v) r
            done,
    )
