-- ===== src/Realtime/Rooms/View.antt =====
-- What a provider's rooms look like from outside, and that each operation changes one room only.
pub mod Members
pub mod Changes
use theokit_plugins.Common.{
  ℕ, suc, ◌<◌, String, Bool, true, false, Option, none, some, List, [], ◌∷◌, ◌++◌, ◌&&◌,
  if◌then◌else◌, ◌==◌, string_eq, nat_eq, ◌⊎◌, ◌≡◌, ◌≢◌, refl, sym, subst, ap, ◌∙◌, arith, All,
  Option-cases, Bool-cases, inl, inr, beq_self, beq_ne, append-nil,
}
use theokit_plugins.Common.Assoc.{
  Assoc, get, set, delete, has, get-set, get-delete, Each, Each-set, Each-delete, Each-get,
}
use theokit_plugins.Realtime.Rooms.{
  Presence, RoomState, Frame, Provider, new_room, or_new, state_at, put_state, ensured, ensure_room,
  to_all, sent_to, fanout, collect, is_empty,
}

abbrev pub seen_at : Option ℕ → Provider → RoomState
seen_at none s = new_room
seen_at (some a) s = state_at a s

-- A room that is not there is like one with nobody in it.
abbrev pub state_of : Provider → String → RoomState
state_of s room_id = seen_at (get room_id s.rooms) s

pub seen_at-same : (o : Option ℕ) (s t : Provider) → s.states ≡ t.states → seen_at o t ≡ seen_at o s
seen_at-same none s t e = refl
seen_at-same (some a) s t e = ap (λ m. or_new (get a m)) (sym e)

-- No two rooms share a room object, and none has one that is still to be made.
pub record IsApart (s : Provider) : Type 0 where
  pub below : Each (λ room_id a. a < s.next) s.rooms
  pub apart : (r q : String) (a : ℕ) → get r s.rooms ≡ some a → get q s.rooms ≡ some a → r ≡ q

-- The one room `r` becomes `x`, and the frames `told` are sent.
pub record Becomes (s : Provider) (r : String) (x : RoomState) (told : List (ℕ × Frame))
    (t : Provider) : Type 0 where
  pub now : (q : String) → state_of t q ≡ (if r == q then x else state_of s q)
  pub sent : t.sent ≡ s.sent ++ told
  pub apart : IsApart t

pub put_state-state_of :
    (s : Provider) (r q : String) (a : ℕ) (x : RoomState)
    → IsApart s
    → get r s.rooms ≡ some a
    → state_of (put_state a x s) q ≡ (if r == q then x else state_of s q)
put_state-state_of s r q a x h here = elim (Option-cases (get q s.rooms)) [
  | inl missing ↦
      let other : (r == q) ≡ false =
        beq_ne r q (λ e. ground (arith, ap (λ k. get k s.rooms) e, here, missing)) in
      rw (missing, other) refl
  | inr (b, there) ↦ elim (Bool-cases (a == b)) [
    | inl same ↦
        let e : a ≡ b = (nat_eq.beq_iff a b).0 same in
        let rq = h.apart r q a here (there ∙ ap some (sym e)) in
        rw (there, get-set, same, ← rq, beq_self r) refl
    | inr differ ↦
        let other : (r == q) ≡ false =
          beq_ne r q
            (λ e. ground (arith, ap (λ k. get k s.rooms) e, here, there, nat_eq.beq_iff a b)) in
        rw (there, get-set, differ, other) refl
  ]
]

module _ (s : Provider) (r : String) (h : IsApart s) (missing : get r s.rooms ≡ none) where
  made-state_of : (q : String) → state_of (ensured r none s).1 q ≡ state_of s q
  made-state_of q = elim (Bool-cases (r == q)) [
    | inl same ↦
        let e : r ≡ q = (string_eq.beq_iff r q).0 same in
        rw (← e, get-set, beq_self r, get-set, beq_self ⦃e = nat_eq⦄ s.next, missing) refl
    | inr other ↦ elim (Option-cases (get q s.rooms)) [
      | inl none_there ↦ rw (get-set, other, none_there) refl
      | inr (b, there) ↦
          let lt = Each-get (λ room_id a. a < s.next) q s.rooms h.below there in
          let new : (s.next == b) ≡ false = beq_ne s.next b (λ e. omega (arith, lt, e)) in
          rw (get-set, other, there, get-set, new) refl
    ]
  ]

  older :
      (m : Assoc String ℕ) → Each (λ room_id a. a < s.next) m → Each (λ room_id a. a < suc s.next) m
  older [] k = tt
  older ((j, a) ∷ m) (p, k) = (omega (arith, p), older m k)

  -- A room with the number of the new one is the new one.
  made-new :
      (q : String) (a : ℕ)
      → get q (set r s.next s.rooms) ≡ some a
      → ((r ≡ q) × (a ≡ s.next)) ⊎ ((get q s.rooms ≡ some a) × (a < s.next))
  made-new q a e = elim (Bool-cases (r == q)) [
    | inl same ↦
        inl ((string_eq.beq_iff r q).0 same, ground (arith, get-set r q s.next s.rooms, same, e))
    | inr other ↦
        let there : get q s.rooms ≡ some a = rw (get-set, other) at e in
        inr (there, Each-get (λ room_id a. a < s.next) q s.rooms h.below there)
  ]

  made-IsApart : IsApart (ensured r none s).1
  made-IsApart = record {
    below =
        Each-set (λ room_id a. a < suc s.next) r s.next s.rooms (older s.rooms h.below)
          (omega arith);
    apart = λ p q a here there. elim (made-new p a here) [
      | inl (rp, new) ↦ elim (made-new q a there) [
        | inl (rq, new') ↦ sym rp ∙ rq
        | inr (old, lt) ↦ absurd (omega (arith, new, lt))
      ]
      | inr (old, lt) ↦ elim (made-new q a there) [
        | inl (rq, new) ↦ absurd (omega (arith, new, lt))
        | inr (old', lt') ↦ h.apart p q a old old'
      ]
    ];
  }

-- The room object that is made is new, and is that of its room.
pub ensure_room-facts :
    (s : Provider) (r : String)
    → IsApart s
    → (get r (ensure_room r s).1.rooms ≡ some (ensure_room r s).0)
      × ((q : String) → state_of (ensure_room r s).1 q ≡ state_of s q)
      × ((ensure_room r s).1.sent ≡ s.sent)
      × IsApart (ensure_room r s).1
ensure_room-facts s r h = elim (Option-cases (get r s.rooms)) [
  | inr (a, there) ↦ rw there (there, (λ q. refl), refl, h)
  | inl missing ↦
      rw missing (
        rw (get-set, beq_self r) refl,
        made-state_of s r h missing,
        refl,
        made-IsApart s r h missing,
      )
]

-- A room's object is changed, and its listeners are told.
pub changed-Becomes :
    (s : Provider) (r : String) (a : ℕ) (x : RoomState) (frame : Frame)
    → IsApart s
    → get r s.rooms ≡ some a
    → Becomes s r x (to_all frame x.listeners) (fanout r frame (put_state a x s))
unfolding fanout
changed-Becomes s r a x frame h here = rw here (record {
  now = λ q.
      seen_at-same (get q s.rooms) (put_state a x s) _ refl ∙ put_state-state_of s r q a x h here;
  sent = rw (get-set, beq_self ⦃e = nat_eq⦄ a) refl;
  apart = record { below = h.below; apart = h.apart };
})

empty_parts :
    (ps : Assoc String Presence) (ls : List ℕ)
    → (is_empty ps && is_empty ls) ≡ true
    → ◌≡◌ {A = RoomState} (record { presences = ps; listeners = ls }) new_room
empty_parts [] [] e = refl
empty_parts [] (l ∷ ls) e = cc
empty_parts (p ∷ ps) ls e = cc

empty_room : (x : RoomState) → (is_empty x.presences && is_empty x.listeners) ≡ true → x ≡ new_room
empty_room x e = empty_parts x.presences x.listeners e

-- A room that is empty is not told from one that is not there.
pub collect-state_of :
    (s : Provider) (r q : String) (a : ℕ)
    → get r s.rooms ≡ some a
    → state_of (collect r a s) q ≡ state_of s q
collect-state_of s r q a here =
    elim (Bool-cases (is_empty (state_at a s).presences && is_empty (state_at a s).listeners)) [
      | inr some_left ↦ rw some_left refl
      | inl nobody ↦ elim (Bool-cases (r == q)) [
        | inl same ↦
            let e : r ≡ q = (string_eq.beq_iff r q).0 same in
            rw (nobody, get-delete, same, ← e, here) (sym (empty_room (state_at a s) nobody))
        | inr other ↦ rw (nobody, get-delete, other) (seen_at-same (get q s.rooms) s _ refl)
      ]
    ]

kept : (r p : String) (b : ℕ) (m : Assoc String ℕ) → get p (delete r m) ≡ some b → get p m ≡ some b
kept r p b m e = elim (Bool-cases (r == p)) [
  | inl same ↦ ground (arith, get-delete r p m, same, e)
  | inr other ↦ ground (arith, get-delete r p m, other, e)
]

pub collect-IsApart : (s : Provider) (r : String) (a : ℕ) → IsApart s → IsApart (collect r a s)
collect-IsApart s r a h =
    elim (Bool-cases (is_empty (state_at a s).presences && is_empty (state_at a s).listeners)) [
      | inr some_left ↦ rw some_left h
      | inl nobody ↦ rw nobody (record {
        below = Each-delete (λ room_id b. b < s.next) r s.rooms h.below;
        apart =
            λ p q b here there. h.apart p q b (kept r p b s.rooms here) (kept r q b s.rooms there);
      })
    ]
