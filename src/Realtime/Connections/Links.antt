-- ===== src/Realtime/Connections/Links.antt =====
-- Which room objects stay: an operation of the provider gives a room another object only if it
-- has none.
use theokit_plugins.Common.{
  ℕ, String, Option, none, some, ◌≡◌, refl, sym, ap, ◌∙◌, arith, ◌⊎◌, inl, inr, Bool-cases,
  Option-cases, ◌==◌, ◌&&◌, string_eq, nat_eq, beq_self,
}
use theokit_plugins.Common.Assoc.{get, delete, has, get-set, get-delete}
use theokit_plugins.Realtime.Rooms.{
  Provider, Frame, Presence, fanout, state_at, ensure_room, collect, is_empty, join_room,
  leave_room, update_presence, broadcast, subscribe_room, unsubscribe,
}

-- Where `q` had the object `a`, it has it still, or there is no room `q`.
pub record Stays (s t : Provider) : Type 0 where
  pub stays :
      (q : String) (a : ℕ)
      → get q s.rooms ≡ some a
      → (get q t.rooms ≡ some a) ⊎ (get q t.rooms ≡ none)

same-Stays : (s t : Provider) → t.rooms ≡ s.rooms → Stays s t
same-Stays s t e = record { stays = λ q a here. inl (ap (get q) e ∙ here) }

Stays-then : (s t u : Provider) → Stays s t → t.rooms ≡ u.rooms → Stays s u
Stays-then s t u h e = record { stays = λ q a here. rw (← e) (h.stays q a here) }

deleted-Stays : (s t : Provider) (r : String) → t.rooms ≡ delete r s.rooms → Stays s t
deleted-Stays s t r e = record {
  stays = λ q a here.
      rw (e, get-delete r q s.rooms)
        (elim (Bool-cases (r == q)) [
          | inl same ↦ rw same (inr refl)
          | inr other ↦ rw other (inl here)
        ]);
}

collect-Stays : (s t : Provider) (r : String) (a : ℕ) → t.rooms ≡ s.rooms → Stays s (collect r a t)
collect-Stays s t r a e =
    elim (Bool-cases (is_empty (state_at a t).presences && is_empty (state_at a t).listeners)) [
      | inl nobody ↦ rw nobody (deleted-Stays s _ r (ap (delete r) e))
      | inr some_left ↦ rw some_left (same-Stays s t e)
    ]

ensure_room-Stays : (r : String) (s : Provider) → Stays s (ensure_room r s).1
ensure_room-Stays r s = elim (Option-cases (get r s.rooms)) [
  | inr (a, there) ↦ rw there (same-Stays s s refl)
  | inl missing ↦ rw missing (record {
    stays = λ q a here. rw (get-set r q s.next s.rooms) (elim (Bool-cases (r == q)) [
      | inl same ↦ absurd (
          ground (
            arith,
            string_eq.beq_iff r q,
            missing,
            here,
            ap (λ k. get k s.rooms) ((string_eq.beq_iff r q).0 same),
          ))
      | inr other ↦ rw other (inl here)
    ]);
  })
]

pub fanout-rooms : (r : String) (frame : Frame) (s : Provider) → (fanout r frame s).rooms ≡ s.rooms
unfolding fanout
fanout-rooms r frame s = elim (Option-cases (get r s.rooms)) [
  | inl missing ↦ rw missing refl
  | inr (a, there) ↦ rw there refl
]

pub subscribe_room-Stays : (r : String) (l : ℕ) (s : Provider) → Stays s (subscribe_room r l s).1
unfolding subscribe_room
subscribe_room-Stays r l s = Stays-then s (ensure_room r s).1 _ (ensure_room-Stays r s) refl

-- The address that a subscription is given is that of its room.
pub subscribe_room-linked :
    (r : String) (l : ℕ) (s : Provider)
    → get r (subscribe_room r l s).1.rooms ≡ some (subscribe_room r l s).0
unfolding subscribe_room
subscribe_room-linked r l s = elim (Option-cases (get r s.rooms)) [
  | inr (a, there) ↦ rw there there
  | inl missing ↦ rw (missing, get-set r r s.next s.rooms, beq_self r) refl
]

pub join_room-Stays :
    (r c : String) (initial : Option Presence) (s : Provider) → Stays s (join_room r c initial s)
unfolding join_room
join_room-Stays r c initial s =
    Stays-then s (ensure_room r s).1 _ (ensure_room-Stays r s) (sym (fanout-rooms r _ _))

pub unsubscribe-Stays : (r : String) (a l : ℕ) (s : Provider) → Stays s (unsubscribe r a l s)
unfolding unsubscribe
unsubscribe-Stays r a l s = collect-Stays s _ r a refl

pub leave_room-Stays : (r c : String) (s : Provider) → Stays s (leave_room r c s)
unfolding leave_room
leave_room-Stays r c s = elim (Option-cases (get r s.rooms)) [
  | inl missing ↦ rw missing (same-Stays s s refl)
  | inr (a, there) ↦ elim (Bool-cases (has c (state_at a s).presences)) [
    | inl member ↦ rw (there, member) (collect-Stays s _ r a (fanout-rooms r _ _))
    | inr stranger ↦ rw (there, stranger) (same-Stays s s refl)
  ]
]

pub broadcast-Stays :
    (r c event payload : String) (s : Provider) → Stays s (broadcast r c event payload s)
unfolding broadcast
broadcast-Stays r c event payload s = elim (Option-cases (get r s.rooms)) [
  | inl missing ↦ rw missing (same-Stays s s refl)
  | inr (a, there) ↦ rw there (same-Stays s _ (fanout-rooms r _ s))
]

pub update_presence-Stays :
    (r c : String) (patch : Presence) (s : Provider) → Stays s (update_presence r c patch s)
unfolding update_presence
update_presence-Stays r c patch s = elim (Option-cases (get r s.rooms)) [
  | inl missing ↦ rw missing (same-Stays s s refl)
  | inr (a, there) ↦ elim (Option-cases (get c (state_at a s).presences)) [
    | inl stranger ↦ rw (there, stranger) (same-Stays s s refl)
    | inr (p, member) ↦ rw (there, member) (same-Stays s _ (fanout-rooms r _ _))
  ]
]
