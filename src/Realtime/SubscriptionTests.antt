-- ===== src/Realtime/SubscriptionTests.antt =====
-- A subscription that gets a frame, waits, and is aborted.
use theokit_plugins.Common.{◌≤◌, true, false, [], ◌∷◌, length, ◌≡◌, refl}
use theokit_plugins.Realtime.Rooms.{Frame, left}
use theokit_plugins.Realtime.Subscription.{
  max_queued_frames, awaiting, yielded, ended, Subscription, fresh, begin, on_frame, on_abort, turn,
  begins, connects, came, pulls, Reach, start, later,
}
use theokit_plugins.Realtime.Subscription.Sound.{IsRunning, IsSubscription}
use theokit_plugins.Realtime.Subscription.Runs.{Reach-IsSubscription}
use theokit_plugins.Realtime.Subscription.Progress.{IsEnding, abort-IsEnding}

runs : Unit {0}
unfolding on_frame on_abort turn
runs = tt

abbrev begun : Subscription
begun = begin false fresh

-- The frame comes while the connection is made.
abbrev told : Subscription
told = on_frame (left "ann") begun

abbrev delivering : Subscription
delivering = turn told

abbrev waiting : Subscription
waiting = turn delivering

waiting_test :
    (delivering.delivered ≡ left "ann" ∷ [])
    × (delivering.phase ≡ yielded)
    × (waiting.phase ≡ awaiting)
    × (waiting.waiter ≡ true)
    × ((on_frame (left "bob") waiting).waiter ≡ false)
    × ((turn (on_abort waiting)).phase ≡ ended)
    × ((turn (on_abort waiting)).releases ≡ 1)
unfolding runs
waiting_test = (refl, refl, refl, refl, refl, refl, refl)

told-Reach : Reach (left "ann" ∷ []) told
told-Reach = later (left "ann" ∷ []) (later [] start (begins false refl)) (came (left "ann"))

waiting-Reach : Reach (left "ann" ∷ []) waiting
unfolding runs
waiting-Reach = later [] (later [] told-Reach (connects refl)) (pulls refl)

Reach-IsSubscription_example : IsSubscription (left "ann" ∷ []) waiting
Reach-IsSubscription_example = Reach-IsSubscription (left "ann" ∷ []) waiting waiting-Reach

waiting-IsRunning : IsRunning waiting.phase
unfolding runs
waiting-IsRunning = tt

abort-IsEnding_example :
    IsEnding (on_abort waiting)
    × ((f : Frame) → max_queued_frames ≤ length waiting.queue → IsEnding (on_frame f waiting))
abort-IsEnding_example = abort-IsEnding (left "ann" ∷ []) waiting waiting-Reach waiting-IsRunning
