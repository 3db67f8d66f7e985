-- ===== src/Realtime/Rooms/View/Members.antt =====
-- What each operation of the provider does, seen from outside.
use theokit_plugins.Common.{
  ℕ, String, Option, some, List, [], ◌++◌, ◌&&◌, if◌then◌else◌, ◌==◌, string_eq, nat_eq, ◌≡◌, refl,
  sym, ap, ap₂, ◌∙◌, Bool-cases, inl, inr, append-nil,
}
use theokit_plugins.Common.Assoc.{get}
use theokit_plugins.Realtime.Rooms.{
  Presence, RoomState, Frame, joined, Provider, state_at, put_state, ensure_room, to_all,
  or_nothing, with_presence, join_room, is_empty, collect, add_listener, subscribe_room,
  without_listener, unsubscribe,
}
use theokit_plugins.Realtime.Rooms.View.{
  seen_at, state_of, IsApart, Becomes, put_state-state_of, ensure_room-facts, changed-Becomes,
  collect-state_of, collect-IsApart,
}

-- A change of a provider that looks the same is a change of the first.
Becomes-same :
    (s s' t : Provider) (r : String) (x y : RoomState) (told : RoomState → List (ℕ × Frame))
    → ((q : String) → state_of s' q ≡ state_of s q)
    → s'.sent ≡ s.sent
    → x ≡ y
    → Becomes s' r x (told x) t
    → Becomes s r y (told y) t
Becomes-same s s' t r x y told same silent e b = record {
  now = λ q. b.now q ∙ ap₂ (λ x y. if r == q then x else y) e (same q);
  sent = b.sent ∙ ap₂ (λ x y. x ++ told y) silent e;
  apart = b.apart;
}

collect-sent : (s : Provider) (r : String) (a : ℕ) → (collect r a s).sent ≡ s.sent
collect-sent s r a =
    elim (Bool-cases (is_empty (state_at a s).presences && is_empty (state_at a s).listeners)) [
      | inl nobody ↦ rw nobody refl
      | inr some_left ↦ rw some_left refl
    ]

-- The room that is empty afterwards may go.
pub collect-Becomes :
    (s t : Provider) (r : String) (a : ℕ) (x : RoomState) (told : List (ℕ × Frame))
    → get r t.rooms ≡ some a
    → Becomes s r x told t
    → Becomes s r x told (collect r a t)
collect-Becomes s t r a x told here b = record {
  now = λ q. collect-state_of t r q a here ∙ b.now q;
  sent = collect-sent t r a ∙ b.sent;
  apart = collect-IsApart t r a b.apart;
}

-- A room's object is changed, and nobody is told.
put_state-Becomes :
    (s : Provider) (r : String) (a : ℕ) (x : RoomState)
    → IsApart s
    → get r s.rooms ≡ some a
    → Becomes s r x [] (put_state a x s)
put_state-Becomes s r a x h here = record {
  now = λ q. put_state-state_of s r q a x h here;
  sent = sym (append-nil s.sent);
  apart = record { below = h.below; apart = h.apart };
}

module _ (s : Provider) (r : String) (h : IsApart s) where
  made_object : state_at (ensure_room r s).0 (ensure_room r s).1 ≡ state_of s r
  made_object =
      let (here, same, silent, apart) = ensure_room-facts s r h in
      sym (ap (λ o. seen_at o (ensure_room r s).1) here) ∙ same r

  -- A member that joins has the presence it came with, in that room only, and every listener of
  -- the room is told once, in order.
  pub join_room-Becomes :
      (c : String) (initial : Option Presence)
      → Becomes s r
          (with_presence c (or_nothing initial) (state_of s r))
          (to_all (joined c (or_nothing initial)) (state_of s r).listeners)
          (join_room r c initial s)
  unfolding join_room
  join_room-Becomes c initial =
      let (here, same, silent, apart) = ensure_room-facts s r h in
      let p = or_nothing initial in
      let x = with_presence c p (state_at (ensure_room r s).0 (ensure_room r s).1) in
      Becomes-same s (ensure_room r s).1 _ r x _ (λ y. to_all (joined c p) y.listeners) same silent
        (ap (with_presence c p) made_object)
        (changed-Becomes (ensure_room r s).1 r (ensure_room r s).0 x (joined c p) apart here)

  -- A listener that subscribes is among the room's listeners, once, and nobody is told.
  pub subscribe_room-Becomes :
      (l : ℕ) → Becomes s r (add_listener l (state_of s r)) [] (subscribe_room r l s).1
  unfolding subscribe_room
  subscribe_room-Becomes l =
      let (here, same, silent, apart) = ensure_room-facts s r h in
      let x = add_listener l (state_at (ensure_room r s).0 (ensure_room r s).1) in
      Becomes-same s (ensure_room r s).1 _ r x _ (λ y. []) same silent
        (ap (add_listener l) made_object)
        (put_state-Becomes (ensure_room r s).1 r (ensure_room r s).0 x apart here)

  -- The end of a subscription that the room object is still that of takes the listener out of
  -- the room, and nobody is told.
  pub unsubscribe-Becomes :
      (a l : ℕ)
      → get r s.rooms ≡ some a
      → Becomes s r (without_listener l (state_of s r)) [] (unsubscribe r a l s)
  unfolding unsubscribe
  unsubscribe-Becomes a l here = rw here (
      collect-Becomes s _ r a _ [] here
        (put_state-Becomes s r a (without_listener l (state_at a s)) h here))
