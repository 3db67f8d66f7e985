-- ===== src/Realtime/Subscription.antt =====
-- packages/plugin-realtime/src/internal/server-integration.ts: the generator that `mountRealtime`
-- makes for a subscription, as a machine whose steps end where it awaits or yields. The frames of
-- the in-memory provider go out as they are (`frameToOutput` encodes CRDT bytes only).
pub mod Sound
pub mod Runs
pub mod Progress
use theokit_plugins.Common.{
  ℕ, suc, ◌+◌, Bool, true, false, List, [], ◌∷◌, ◌++◌, length, leb, ◌≡◌, if◌then◌else◌,
}
use theokit_plugins.Realtime.Rooms.{Frame}

-- `MAX_QUEUED_FRAMES`
abbrev pub max_queued_frames : ℕ
max_queued_frames = 1024

-- Where the generator is: not begun, in `handleConnection`, at its promise, at its `yield`, done.
pub data Phase : Type 0 where
  unstarted connecting awaiting yielded ended : Phase

-- `waiter` holds when the promise's `resolve` is kept. The last three record what is outside: the
-- frames given to the consumer, and the calls of `disconnect` and of the handle's `release`.
pub record Subscription : Type 0 where
  pub phase : Phase
  pub queue : List Frame
  pub waiter : Bool
  pub stopped : Bool
  pub listening : Bool
  pub delivered : List Frame
  pub disconnects : ℕ
  pub releases : ℕ

abbrev pub fresh : Subscription
fresh = record {
  phase = unstarted;
  queue = [];
  waiter = false;
  stopped = false;
  listening = false;
  delivered = [];
  disconnects = 0;
  releases = 0;
}

-- `wake`
abbrev pub wake : Subscription → Subscription
wake s = record s { waiter = false }

abbrev pub overflowed : Subscription → Subscription
overflowed s = record (wake (record s { stopped = true })) { disconnects = suc s.disconnects }

-- `onFrame`
unfoldable pub on_frame : Frame → Subscription → Subscription
on_frame f s =
    if s.stopped
    then s
    else if leb max_queued_frames (length s.queue)
    then overflowed s
    else wake (record s { queue = s.queue ++ f ∷ [] })

-- `onAbort`, which is heard once, while it is attached.
unfoldable pub on_abort : Subscription → Subscription
on_abort s = if s.listening then wake (record s { listening = false; stopped = true }) else s

-- The `finally`
abbrev pub finish : Subscription → Subscription
finish s = record s { phase = ended; listening = false; releases = suc s.releases }

abbrev pub next_of : List Frame → Subscription → Subscription
next_of [] s = record s { phase = awaiting; waiter = true }
next_of (f ∷ q) s = record s { phase = yielded; queue = q; delivered = s.delivered ++ f ∷ [] }

-- From the head of the loop to its next await or yield.
unfoldable pub turn : Subscription → Subscription
turn s = if s.stopped then finish s else next_of s.queue s

abbrev pub begin : Bool → Subscription → Subscription
begin true s = record s { phase = ended }
begin false s = record s { phase = connecting; listening = true }

-- A step, with the frames that came in it: the consumer asks for the first frame or another, or
-- goes away, the connection is made or refused, a frame comes, the signal aborts, or the promise
-- that was resolved resumes the generator. `begins` has whether the signal was aborted before.
pub data Step (s : Subscription) : List Frame → Subscription → Type 0 where
  begins : (aborted : Bool) → s.phase ≡ unstarted → Step s [] (begin aborted s)
  abandoned : s.phase ≡ unstarted → Step s [] (record s { phase = ended })
  connects : s.phase ≡ connecting → Step s [] (turn s)
  refused : s.phase ≡ connecting → Step s [] (record s { phase = ended; listening = false })
  came : (f : Frame) → Step s (f ∷ []) (on_frame f s)
  aborts : Step s [] (on_abort s)
  resumes : s.phase ≡ awaiting → s.waiter ≡ false → Step s [] (turn s)
  pulls : s.phase ≡ yielded → Step s [] (turn s)
  closes : s.phase ≡ yielded → Step s [] (finish s)

-- The subscriptions that can be reached, with the frames that came.
pub data Reach : List Frame → Subscription → Type 0 where
  start : Reach [] fresh
  later :
      {came : List Frame} {s : Subscription} (more : List Frame) {t : Subscription}
      → Reach came s
      → Step s more t
      → Reach (came ++ more) t
