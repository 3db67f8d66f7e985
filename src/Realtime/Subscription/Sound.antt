-- ===== src/Realtime/Subscription/Sound.antt =====
-- What holds of a subscription, and the calls that keep it.
use theokit_plugins.Common.{
  ◌≤◌, ◌<◌, true, false, List, [], ◌∷◌, ◌++◌, length, length-snoc, leb, ◌≡◌, ◌≢◌, ◌⊎◌, inr, refl,
  sym, ap, ◌∙◌, arith, if-both, append-nil, append_assoc,
}
use theokit_plugins.Realtime.Rooms.{Frame}
use theokit_plugins.Realtime.Subscription.{
  max_queued_frames, Phase, unstarted, connecting, awaiting, yielded, ended, Subscription, fresh,
  wake, overflowed, on_frame, on_abort, finish, next_of, turn,
}

abbrev pub IsRunning : Phase → Type 0
IsRunning unstarted = ⊥
IsRunning connecting = Unit
IsRunning awaiting = Unit
IsRunning yielded = Unit
IsRunning ended = ⊥

-- The frames given to the consumer and those in the queue are the first that came, in order.
pub record IsPrefix (sent : List Frame) (s : Subscription) : Type 0 where
  pub rest : List Frame
  pub ordered : sent ≡ (s.delivered ++ s.queue) ++ rest
  pub whole : s.stopped ≡ false → rest ≡ []

pub record IsSubscription (sent : List Frame) (s : Subscription) : Type 0 where
  pub bounded : length s.queue ≤ max_queued_frames
  pub in_order : IsPrefix sent s
  pub asleep : s.waiter ≡ true → (s.phase ≡ awaiting) × (s.queue ≡ []) × (s.stopped ≡ false)
  pub told_once : s.disconnects ≤ 1
  pub untold : s.stopped ≡ false → s.disconnects ≡ 0
  pub held : s.phase ≢ ended → s.releases ≡ 0
  pub released_once : s.releases ≤ 1
  pub heard : IsRunning s.phase → (s.listening ≡ true) ⊎ (s.stopped ≡ true)
  pub detached : s.listening ≡ true → IsRunning s.phase

pub fresh-IsSubscription : IsSubscription [] fresh
fresh-IsSubscription = record {
  bounded = omega arith;
  in_order = record { rest = []; ordered = refl; whole = λ e. refl };
  asleep = λ e. cc;
  told_once = omega arith;
  untold = λ e. refl;
  held = λ e. refl;
  released_once = omega arith;
  heard = λ r. absurd r;
  detached = λ e. cc;
}

pub finish-IsSubscription :
    (sent : List Frame) (s : Subscription)
    → s.waiter ≡ false
    → s.phase ≢ ended
    → IsSubscription sent s
    → IsSubscription sent (finish s)
finish-IsSubscription sent s up alive v = record {
  bounded = v.bounded;
  in_order = record {
    rest = v.in_order.rest;
    ordered = v.in_order.ordered;
    whole = v.in_order.whole;
  };
  asleep = λ e. ground (arith, up);
  told_once = v.told_once;
  untold = v.untold;
  held = λ e. absurd (e refl);
  released_once = omega (arith, v.held alive);
  heard = λ r. absurd r;
  detached = λ e. cc;
}

next_of-IsSubscription :
    (sent q : List Frame) (s : Subscription)
    → s.queue ≡ q
    → s.waiter ≡ false
    → s.stopped ≡ false
    → IsRunning s.phase
    → s.phase ≢ ended
    → IsSubscription sent s
    → IsSubscription sent (next_of q s)
next_of-IsSubscription sent [] s e up going running alive v = record {
  bounded = v.bounded;
  in_order = record {
    rest = v.in_order.rest;
    ordered = v.in_order.ordered;
    whole = v.in_order.whole;
  };
  asleep = λ x. (refl, e, going);
  told_once = v.told_once;
  untold = v.untold;
  held = λ x. v.held alive;
  released_once = v.released_once;
  heard = λ r. v.heard running;
  detached = λ x. tt;
}
next_of-IsSubscription sent (f ∷ q) s e up going running alive v = record {
  bounded = omega (arith, ap length e, v.bounded);
  in_order = record {
    rest = v.in_order.rest;
    ordered =
        v.in_order.ordered
        ∙ ap (λ w. (s.delivered ++ w) ++ v.in_order.rest) e
        ∙ ap (λ w. w ++ v.in_order.rest) (sym (append_assoc s.delivered (f ∷ []) q));
    whole = v.in_order.whole;
  };
  asleep = λ x. ground (arith, up);
  told_once = v.told_once;
  untold = v.untold;
  held = λ x. v.held alive;
  released_once = v.released_once;
  heard = λ r. v.heard running;
  detached = λ x. tt;
}

pub turn-IsSubscription :
    (sent : List Frame) (s : Subscription)
    → s.waiter ≡ false
    → IsRunning s.phase
    → s.phase ≢ ended
    → IsSubscription sent s
    → IsSubscription sent (turn s)
unfolding turn
turn-IsSubscription sent s up running alive v =
    if-both (IsSubscription sent) s.stopped (finish s) (next_of s.queue s)
      (λ done. finish-IsSubscription sent s up alive v)
      (λ going. next_of-IsSubscription sent _ s refl up going running alive v)

overflowed-IsSubscription :
    (sent : List Frame) (f : Frame) (s : Subscription)
    → s.stopped ≡ false
    → IsSubscription sent s
    → IsSubscription (sent ++ f ∷ []) (overflowed s)
overflowed-IsSubscription sent f s going v = record {
  bounded = v.bounded;
  in_order = record {
    rest = f ∷ [];
    ordered =
        ap (λ w. w ++ f ∷ [])
          (v.in_order.ordered
            ∙ ap (λ w. (s.delivered ++ s.queue) ++ w) (v.in_order.whole going)
            ∙ append-nil _);
    whole = λ e. cc;
  };
  asleep = λ e. cc;
  told_once = omega (arith, v.untold going);
  untold = λ e. cc;
  held = v.held;
  released_once = v.released_once;
  heard = λ r. inr refl;
  detached = v.detached;
}

queued-IsSubscription :
    (sent : List Frame) (f : Frame) (s : Subscription)
    → s.stopped ≡ false
    → length s.queue < max_queued_frames
    → IsSubscription sent s
    → IsSubscription (sent ++ f ∷ []) (wake (record s { queue = s.queue ++ f ∷ [] }))
queued-IsSubscription sent f s going room v = record {
  bounded = omega (arith, length-snoc s.queue f);
  in_order = record {
    rest = [];
    ordered =
        ap (λ w. w ++ f ∷ [])
          (v.in_order.ordered
            ∙ ap (λ w. (s.delivered ++ s.queue) ++ w) (v.in_order.whole going)
            ∙ append-nil _)
        ∙ append_assoc s.delivered s.queue (f ∷ [])
        ∙ sym (append-nil _);
    whole = λ e. refl;
  };
  asleep = λ e. cc;
  told_once = v.told_once;
  untold = v.untold;
  held = v.held;
  released_once = v.released_once;
  heard = v.heard;
  detached = v.detached;
}

dropped-IsSubscription :
    (sent : List Frame) (f : Frame) (s : Subscription)
    → s.stopped ≡ true
    → IsSubscription sent s
    → IsSubscription (sent ++ f ∷ []) s
dropped-IsSubscription sent f s done v = record {
  bounded = v.bounded;
  in_order = record {
    rest = v.in_order.rest ++ f ∷ [];
    ordered =
        ap (λ w. w ++ f ∷ []) v.in_order.ordered
        ∙ append_assoc (s.delivered ++ s.queue) v.in_order.rest (f ∷ []);
    whole = λ e. ground (arith, done);
  };
  asleep = v.asleep;
  told_once = v.told_once;
  untold = v.untold;
  held = v.held;
  released_once = v.released_once;
  heard = v.heard;
  detached = v.detached;
}

pub on_frame-IsSubscription :
    (sent : List Frame) (f : Frame) (s : Subscription)
    → IsSubscription sent s
    → IsSubscription (sent ++ f ∷ []) (on_frame f s)
unfolding on_frame
on_frame-IsSubscription sent f s v =
    if-both (IsSubscription (sent ++ f ∷ [])) s.stopped s _
      (λ done. dropped-IsSubscription sent f s done v)
      (λ going.
        if-both (IsSubscription (sent ++ f ∷ [])) (leb max_queued_frames (length s.queue)) _ _
          (λ full. overflowed-IsSubscription sent f s going v)
          (λ room. queued-IsSubscription sent f s going (ground (arith, room)) v))

pub on_abort-IsSubscription :
    (sent : List Frame) (s : Subscription)
    → IsSubscription sent s
    → IsSubscription sent (on_abort s)
unfolding on_abort
on_abort-IsSubscription sent s v =
    if-both (IsSubscription sent) s.listening _ s
      (λ here. record {
        bounded = v.bounded;
        in_order = record { rest = v.in_order.rest; ordered = v.in_order.ordered; whole = λ e. cc };
        asleep = λ e. cc;
        told_once = v.told_once;
        untold = λ e. cc;
        held = v.held;
        released_once = v.released_once;
        heard = λ r. inr refl;
        detached = λ e. cc;
      })
      (λ gone. v)
