-- ===== src/Realtime/Rooms/View/Changes.antt =====
-- Leaving a room, changing a presence and sending an event, seen from outside.
use theokit_plugins.Common.{
  ℕ, String, true, false, Option, none, some, [], ◌++◌, if◌then◌else◌, ◌==◌, string_eq, nat_eq, ◌≡◌,
  refl, sym, ap, ◌∙◌, Option-cases, Bool-cases, inl, inr, append-nil,
}
use theokit_plugins.Common.Assoc.{get, delete, has}
use theokit_plugins.Realtime.Rooms.{
  Presence, RoomState, Frame, left, broadcasted, presence_changed, Provider, state_at, put_state,
  to_all, sent_to, fanout, with_presence, leave_room, broadcast_at, broadcast, merge,
  update_presence,
}
use theokit_plugins.Realtime.Rooms.View.{
  seen_at, seen_at-same, state_of, IsApart, Becomes, changed-Becomes,
}
use theokit_plugins.Realtime.Rooms.View.Members.{collect-Becomes}

abbrev pub without_member : String → RoomState → RoomState
without_member c room = record room { presences = delete c room.presences }

fanout-rooms : (r : String) (frame : Frame) (s : Provider) → (fanout r frame s).rooms ≡ s.rooms
unfolding fanout
fanout-rooms r frame s = elim (Option-cases (get r s.rooms)) [
  | inl missing ↦ rw missing refl
  | inr (a, there) ↦ rw there refl
]

nothing_got : (c : String) {p : Presence} → get c [] ≡ some p → ⊥
unfolding get
nothing_got c e = cc

module _ (s : Provider) (r : String) (h : IsApart s) where
  -- A member that leaves is out of that room and no other, and every listener of the room is told
  -- once; one who is not there leaves nothing changed.
  pub leave_room-Becomes :
      (c : String)
      → (has c (state_of s r).presences ≡ true
          → Becomes s r
              (without_member c (state_of s r))
              (to_all (left c) (state_of s r).listeners)
              (leave_room r c s))
        × (has c (state_of s r).presences ≡ false → leave_room r c s ≡ s)
  unfolding leave_room has
  leave_room-Becomes c = elim (Option-cases (get r s.rooms)) [
    | inl missing ↦ rw missing ((λ e. cc), (λ e. refl))
    | inr (a, here) ↦
        let t = put_state a (without_member c (state_at a s)) s in
        rw here (
          (λ there. rw there (
              collect-Becomes s (fanout r (left c) t) r a _ _
                (ap (get r) (fanout-rooms r (left c) t) ∙ here)
                (changed-Becomes s r a (without_member c (state_at a s)) (left c) h here))),
          (λ absent. rw absent refl),
        )
  ]

  -- A patch changes the presence of a member that is there, field by field, and every listener of
  -- the room is told the whole presence; a patch for one who is not there changes nothing.
  pub update_presence-Becomes :
      (c : String) (patch : Presence)
      → ((current : Presence)
          → get c (state_of s r).presences ≡ some current
          → Becomes s r
              (with_presence c (merge current patch) (state_of s r))
              (to_all (presence_changed c (merge current patch)) (state_of s r).listeners)
              (update_presence r c patch s))
        × (get c (state_of s r).presences ≡ none → update_presence r c patch s ≡ s)
  unfolding update_presence
  update_presence-Becomes c patch = elim (Option-cases (get r s.rooms)) [
    | inl missing ↦ rw missing ((λ current e. absurd (nothing_got c e)), (λ e. refl))
    | inr (a, here) ↦ rw here (
      (λ current there. rw there (
          changed-Becomes s r a (with_presence c (merge current patch) (state_at a s))
            (presence_changed c (merge current patch)) h here)),
      (λ absent. rw absent refl),
    )
  ]

  same_room : (q : String) → state_of s q ≡ (if r == q then state_of s r else state_of s q)
  same_room q = elim (Bool-cases (r == q)) [
    | inl same ↦ rw (same, (string_eq.beq_iff r q).0 same) refl
    | inr other ↦ rw other refl
  ]

  sent_to-Becomes :
      (frame : Frame) (o : Option ℕ)
      → get r s.rooms ≡ o
      → Becomes s r (state_of s r) (to_all frame (state_of s r).listeners) (sent_to o frame s)
  sent_to-Becomes frame none e = record {
    now = same_room;
    sent =
        sym (append-nil s.sent) ∙ ap (λ o. s.sent ++ to_all frame (seen_at o s).listeners) (sym e);
    apart = h;
  }
  sent_to-Becomes frame (some a) e = record {
    now = λ q. seen_at-same (get q s.rooms) s _ refl ∙ same_room q;
    sent = ap (λ o. s.sent ++ to_all frame (seen_at o s).listeners) (sym e);
    apart = record { below = h.below; apart = h.apart };
  }

  broadcast_at-Becomes :
      (frame : Frame) (o : Option ℕ)
      → get r s.rooms ≡ o
      → Becomes s r
          (state_of s r)
          (to_all frame (state_of s r).listeners)
          (broadcast_at r frame o s)
  unfolding fanout
  broadcast_at-Becomes frame none e = sent_to-Becomes frame none e
  broadcast_at-Becomes frame (some a) e = sent_to-Becomes frame (get r s.rooms) refl

  -- An event changes no room, and every listener of its room is sent it once, whoever sends it.
  pub broadcast-Becomes :
      (c event payload : String)
      → Becomes s r
          (state_of s r)
          (to_all (broadcasted c event payload) (state_of s r).listeners)
          (broadcast r c event payload s)
  unfolding broadcast
  broadcast-Becomes c event payload =
      broadcast_at-Becomes (broadcasted c event payload) (get r s.rooms) refl
