-- ===== src/Realtime/Subscription/Runs.antt =====
-- What holds of a subscription at all times.
use theokit_plugins.Common.{
  Bool, true, false, List, [], ◌++◌, ◌≡◌, ◌≢◌, inl, inr, refl, sym, subst, ◌∙◌, arith, Bool-cases,
  append-nil,
}
use theokit_plugins.Realtime.Rooms.{Frame}
use theokit_plugins.Realtime.Subscription.{
  Phase, unstarted, connecting, awaiting, yielded, ended, Subscription, turn, begin, Step, begins,
  abandoned, connects, refused, came, aborts, resumes, pulls, closes, Reach, start, later,
}
use theokit_plugins.Realtime.Subscription.Sound.{
  IsRunning, IsSubscription, fresh-IsSubscription, finish-IsSubscription, turn-IsSubscription,
  on_frame-IsSubscription, on_abort-IsSubscription,
}

-- Elsewhere than at its promise, the generator keeps no `resolve`.
up_at :
    (sent : List Frame) (s : Subscription) (p : Phase)
    → s.phase ≡ p
    → p ≢ awaiting
    → IsSubscription sent s
    → s.waiter ≡ false
up_at sent s p at other v = elim (Bool-cases s.waiter) [
  | inl kept ↦ absurd (other (sym at ∙ (v.asleep kept).0))
  | inr up ↦ up
]

deaf_at :
    (sent : List Frame) (s : Subscription)
    → s.phase ≡ unstarted
    → IsSubscription sent s
    → s.listening ≡ true
    → ⊥
deaf_at sent s at v e = subst IsRunning at (v.detached e)

-- The generator ends before there is a handle.
ended-IsSubscription :
    (sent : List Frame) (s : Subscription) (l : Bool)
    → (l ≡ true → ⊥)
    → s.waiter ≡ false
    → s.phase ≢ ended
    → IsSubscription sent s
    → IsSubscription sent (record s { phase = ended; listening = l })
ended-IsSubscription sent s l off up alive v = record {
  bounded = v.bounded;
  in_order = record {
    rest = v.in_order.rest;
    ordered = v.in_order.ordered;
    whole = v.in_order.whole;
  };
  asleep = λ e. ground (arith, up);
  told_once = v.told_once;
  untold = v.untold;
  held = λ e. v.held alive;
  released_once = v.released_once;
  heard = λ r. absurd r;
  detached = λ e. absurd (off e);
}

connecting-IsSubscription :
    (sent : List Frame) (s : Subscription)
    → s.waiter ≡ false
    → s.phase ≢ ended
    → IsSubscription sent s
    → IsSubscription sent (record s { phase = connecting; listening = true })
connecting-IsSubscription sent s up alive v = record {
  bounded = v.bounded;
  in_order = record {
    rest = v.in_order.rest;
    ordered = v.in_order.ordered;
    whole = v.in_order.whole;
  };
  asleep = λ e. ground (arith, up);
  told_once = v.told_once;
  untold = v.untold;
  held = λ e. v.held alive;
  released_once = v.released_once;
  heard = λ r. inl refl;
  detached = λ e. tt;
}

begin-IsSubscription :
    (sent : List Frame) (b : Bool) (s : Subscription)
    → s.phase ≡ unstarted
    → IsSubscription sent s
    → IsSubscription sent (begin b s)
begin-IsSubscription sent true s at v =
    ended-IsSubscription sent s s.listening (deaf_at sent s at v)
      (up_at sent s unstarted at (λ e. cc) v) (λ e. cc) v
begin-IsSubscription sent false s at v =
    connecting-IsSubscription sent s (up_at sent s unstarted at (λ e. cc) v) (λ e. cc) v

turn_at :
    (sent : List Frame) (s : Subscription) (p : Phase)
    → s.phase ≡ p
    → IsRunning p
    → s.waiter ≡ false
    → IsSubscription sent s
    → IsSubscription sent (turn s)
turn_at sent s p at running up v =
    turn-IsSubscription sent s up (subst IsRunning (sym at) running)
      (λ e. subst IsRunning (sym at ∙ e) running) v

quietly :
    (sent : List Frame) (t : Subscription) → IsSubscription sent t → IsSubscription (sent ++ []) t
quietly sent t v = subst (λ w. IsSubscription w t) (sym (append-nil sent)) v

step-IsSubscription :
    (sent : List Frame) (s : Subscription) (more : List Frame) (t : Subscription)
    → IsSubscription sent s
    → Step s more t
    → IsSubscription (sent ++ more) t
step-IsSubscription sent s more t v (begins b at) =
    quietly sent t (begin-IsSubscription sent b s at v)
step-IsSubscription sent s more t v (abandoned at) =
    quietly sent t (begin-IsSubscription sent true s at v)
step-IsSubscription sent s more t v (connects at) =
    quietly sent t (turn_at sent s connecting at tt (up_at sent s connecting at (λ e. cc) v) v)
step-IsSubscription sent s more t v (refused at) = quietly sent t (
    ended-IsSubscription sent s false (λ e. cc) (up_at sent s connecting at (λ e. cc) v) (λ e. cc)
      v)
step-IsSubscription sent s more t v (came f) = on_frame-IsSubscription sent f s v
step-IsSubscription sent s more t v aborts = quietly sent t (on_abort-IsSubscription sent s v)
step-IsSubscription sent s more t v (resumes at up) =
    quietly sent t (turn_at sent s awaiting at tt up v)
step-IsSubscription sent s more t v (pulls at) =
    quietly sent t (turn_at sent s yielded at tt (up_at sent s yielded at (λ e. cc) v) v)
step-IsSubscription sent s more t v (closes at) =
    quietly sent t (finish-IsSubscription sent s (up_at sent s yielded at (λ e. cc) v) (λ e. cc) v)

-- At all times the queue holds at most 1024 frames; the frames given to the consumer and those in
-- the queue are the first that came, in order, and all of them until the subscription stops; the
-- generator sleeps only while there is nothing to do; the consumer is disconnected at most once,
-- the handle is released at most once, and an abort is heard until the generator has ended.
pub Reach-IsSubscription :
    (sent : List Frame) (s : Subscription) → Reach sent s → IsSubscription sent s
Reach-IsSubscription sent s start = fresh-IsSubscription
Reach-IsSubscription sent s (later {came = before} {s = r} more was step) =
    step-IsSubscription before r more s (Reach-IsSubscription before r was) step
