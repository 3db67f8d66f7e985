-- ===== src/Realtime/Connections/Passes.antt =====
-- What an operation of the provider leaves in place: the objects of rooms, the listeners of `L` and
-- the members of `M`.
use theokit_plugins.Common.{
  ℕ, String, Bool, true, not, Option, some, List, [], ◌∷◌, ◌++◌, ◌≡◌, ◌≢◌, refl, sym, subst, arith,
  inl, inr, Bool-cases, Option-cases, ◌==◌, beq_self, string_eq, nat_eq, any, filter, nat_beq,
}
use theokit_plugins.Common.Assoc.{Assoc, get, set, delete, has}
use theokit_plugins.Realtime.Rooms.{
  Provider, RoomState, Frame, Presence, join_room, leave_room, update_presence, broadcast,
  subscribe_room, unsubscribe, merge, or_nothing, add_listener,
}
use theokit_plugins.Realtime.Rooms.View.{state_of, IsApart, Becomes}
use theokit_plugins.Realtime.Rooms.View.Members.{
  join_room-Becomes, subscribe_room-Becomes, unsubscribe-Becomes,
}
use theokit_plugins.Realtime.Rooms.View.Changes.{
  leave_room-Becomes, update_presence-Becomes, broadcast-Becomes,
}
use theokit_plugins.Realtime.Connections.Links.{
  Stays, subscribe_room-Stays, join_room-Stays, unsubscribe-Stays, leave_room-Stays,
  broadcast-Stays, update_presence-Stays,
}

abbrev pub listens : ℕ → RoomState → Bool
listens n room = any (nat_beq n) room.listeners

abbrev pub is_member : String → RoomState → Bool
is_member c room = has c room.presences

pub record Passes (L : ℕ → Type 0) (M : String → String → Type 0) (s t : Provider) : Type 0 where
  pub stays : Stays s t
  pub apart : IsApart t
  pub listeners :
      (n : ℕ) (q : String) → L n → listens n (state_of s q) ≡ true → listens n (state_of t q) ≡ true
  pub members :
      (q d : String) → M q d → is_member d (state_of s q) ≡ true → is_member d (state_of t q) ≡ true

abbrev pub AllListeners : ℕ → Type 0
AllListeners n = Unit {0}

abbrev pub AllMembers : String → String → Type 0
AllMembers q d = Unit {0}

pub same-Passes :
    (L : ℕ → Type 0) (M : String → String → Type 0) (s : Provider) → IsApart s → Passes L M s s
same-Passes L M s h = record {
  stays = record { stays = λ q a here. inl here };
  apart = h;
  listeners = λ n q l e. e;
  members = λ q d m e. e;
}

-- An operation that changes one room passes what it passes in that room.
changed-Passes :
    (L : ℕ → Type 0) (M : String → String → Type 0) (s : Provider) (r : String) (x : RoomState)
    (told : List (ℕ × Frame)) (t : Provider)
    → Stays s t
    → Becomes s r x told t
    → ((n : ℕ) → L n → listens n (state_of s r) ≡ true → listens n x ≡ true)
    → ((d : String) → M r d → is_member d (state_of s r) ≡ true → is_member d x ≡ true)
    → Passes L M s t
changed-Passes L M s r x told t stays b ls ms = record {
  stays = stays;
  apart = b.apart;
  listeners = λ n q l e. rw (b.now q) (elim (Bool-cases (r == q)) [
    | inl same ↦ rw same (
        ls n l
          (subst (λ q. listens n (state_of s q) ≡ true) (sym ((string_eq.beq_iff r q).0 same)) e))
    | inr other ↦ rw other e
  ]);
  members = λ q d m e. rw (b.now q) (elim (Bool-cases (r == q)) [
    | inl same ↦
        let rq = sym ((string_eq.beq_iff r q).0 same) in
        rw same
          (ms d (subst (λ q. M q d) rq m) (subst (λ q. is_member d (state_of s q) ≡ true) rq e))
    | inr other ↦ rw other e
  ]);
}

any-append :
    (n : ℕ) (ks ls : List ℕ) → any (nat_beq n) ks ≡ true → any (nat_beq n) (ks ++ ls) ≡ true
any-append n [] ls e = cc
any-append n (k ∷ ks) ls e = ground (arith, any-append n ks ls)

any-snoc : (n : ℕ) (ks : List ℕ) → any (nat_beq n) (ks ++ n ∷ []) ≡ true
any-snoc n [] = ground arith
any-snoc n (k ∷ ks) = ground (arith, any-snoc n ks)

listens-add :
    (n l : ℕ) (room : RoomState) → listens n room ≡ true → listens n (add_listener l room) ≡ true
listens-add n l room e = elim (Bool-cases (any (nat_beq l) room.listeners)) [
  | inl there ↦ rw there e
  | inr new ↦ rw new (any-append n room.listeners (l ∷ []) e)
]

member-add :
    (d : String) (l : ℕ) (room : RoomState)
    → is_member d room ≡ true
    → is_member d (add_listener l room) ≡ true
member-add d l room e = elim (Bool-cases (any (nat_beq l) room.listeners)) [
  | inl there ↦ rw there e
  | inr new ↦ rw new e
]

listens-added : (l : ℕ) (room : RoomState) → listens l (add_listener l room) ≡ true
listens-added l room = elim (Bool-cases (any (nat_beq l) room.listeners)) [
  | inl there ↦ rw there there
  | inr new ↦ rw new (any-snoc l room.listeners)
]

has-set :
    (c d : String) (p : Presence) (m : Assoc String Presence)
    → has d m ≡ true
    → has d (set c p m) ≡ true
unfolding has set
has-set c d p [] e = cc
has-set c d p ((k, v) ∷ m) e =
    ground
      (arith, string_eq.beq_iff k c, string_eq.beq_iff k d, string_eq.beq_iff c d, has-set c d p m)

has-set_self : (c : String) (p : Presence) (m : Assoc String Presence) → has c (set c p m) ≡ true
unfolding has set
has-set_self c p [] = ground (arith, string_eq.beq_iff c c)
has-set_self c p ((k, v) ∷ m) =
    ground (arith, string_eq.beq_iff k c, string_eq.beq_iff c c, has-set_self c p m)

has-delete :
    (c d : String) (m : Assoc String Presence) → d ≢ c → has d m ≡ true → has d (delete c m) ≡ true
unfolding has delete
has-delete c d [] ne e = cc
has-delete c d ((k, v) ∷ m) ne e =
    ground (arith, string_eq.beq_iff k c, string_eq.beq_iff k d, has-delete c d m ne)

any-filter :
    (n l : ℕ) (ls : List ℕ)
    → n ≢ l
    → any (nat_beq n) ls ≡ true
    → any (nat_beq n) (filter (λ k. not (nat_beq l k)) ls) ≡ true
any-filter n l [] ne e = cc
any-filter n l (k ∷ ls) ne e = ground (arith, any-filter n l ls ne)

module _ (s : Provider) (apart : IsApart s) where
  -- A new listener is among those of its room.
  pub subscribe_room-Passes :
      (r : String) (l : ℕ)
      → Passes AllListeners AllMembers s (subscribe_room r l s).1
        × (listens l (state_of (subscribe_room r l s).1 r) ≡ true)
  subscribe_room-Passes r l =
      let b = subscribe_room-Becomes s r apart l in
      (
        changed-Passes AllListeners AllMembers s r _ _ _ (subscribe_room-Stays r l s) b
            (λ n u e. listens-add n l (state_of s r) e) (λ d u e. member-add d l (state_of s r) e),
        rw (b.now r, beq_self r) (listens-added l (state_of s r)),
      )

  -- A member that joins is among those of its room.
  pub join_room-Passes :
      (r c : String) (initial : Option Presence)
      → Passes AllListeners AllMembers s (join_room r c initial s)
        × (is_member c (state_of (join_room r c initial s) r) ≡ true)
  join_room-Passes r c initial =
      let b = join_room-Becomes s r apart c initial in
      (
        changed-Passes AllListeners AllMembers s r _ _ _ (join_room-Stays r c initial s) b
            (λ n u e. e) (λ d u e. has-set c d (or_nothing initial) (state_of s r).presences e),
        rw (b.now r, beq_self r) (has-set_self c (or_nothing initial) (state_of s r).presences),
      )

  pub unsubscribe-Passes :
      (r : String) (a l : ℕ)
      → get r s.rooms ≡ some a
      → Passes (λ n. n ≢ l) AllMembers s (unsubscribe r a l s)
  unsubscribe-Passes r a l here =
      changed-Passes (λ n. n ≢ l) AllMembers s r _ _ _ (unsubscribe-Stays r a l s)
        (unsubscribe-Becomes s r apart a l here)
        (λ n ne e. any-filter n l (state_of s r).listeners ne e) (λ d u e. e)

  pub leave_room-Passes :
      (r c : String) → Passes AllListeners (λ q d. q ≡ r → d ≢ c) s (leave_room r c s)
  leave_room-Passes r c = elim (Bool-cases (has c (state_of s r).presences)) [
    | inl member ↦
        changed-Passes AllListeners (λ q d. q ≡ r → d ≢ c) s r _ _ _ (leave_room-Stays r c s)
          ((leave_room-Becomes s r apart c).0 member) (λ n u e. e)
          (λ d m e. has-delete c d (state_of s r).presences (m refl) e)
    | inr stranger ↦
        rw ((leave_room-Becomes s r apart c).1 stranger)
          (same-Passes AllListeners (λ q d. q ≡ r → d ≢ c) s apart)
  ]

  pub broadcast-Passes :
      (r c event payload : String)
      → Passes AllListeners AllMembers s (broadcast r c event payload s)
  broadcast-Passes r c event payload =
      changed-Passes AllListeners AllMembers s r _ _ _ (broadcast-Stays r c event payload s)
        (broadcast-Becomes s r apart c event payload) (λ n u e. e) (λ d u e. e)

  pub update_presence-Passes :
      (r c : String) (patch : Presence)
      → Passes AllListeners AllMembers s (update_presence r c patch s)
  update_presence-Passes r c patch = elim (Option-cases (get c (state_of s r).presences)) [
    | inl stranger ↦
        rw ((update_presence-Becomes s r apart c patch).1 stranger)
          (same-Passes AllListeners AllMembers s apart)
    | inr (current, member) ↦
        changed-Passes AllListeners AllMembers s r _ _ _ (update_presence-Stays r c patch s)
          ((update_presence-Becomes s r apart c patch).0 current member) (λ n u e. e)
          (λ d u e. has-set c d (merge current patch) (state_of s r).presences e)
  ]
