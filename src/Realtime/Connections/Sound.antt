-- ===== src/Realtime/Connections/Sound.antt =====
-- Whoever holds the live handle of a connection is in the room, whatever the calls and their
-- order: superseded handles, handles that are released twice and frames included.
use theokit_plugins.Common.{
  ℕ, ◌<◌, String, true, false, Option, none, some, List, ◌≡◌, ◌≢◌, refl, subst, arith, ◌⊎◌, inl,
  inr, Bool-cases, ◌==◌, string_eq, nat_eq, codes_eq, beq_self,
}
use theokit_plugins.Common.Assoc.{get, set, get-set}
use theokit_plugins.Realtime.Rooms.{Provider, Presence, join_room, subscribe_room}
use theokit_plugins.Realtime.Rooms.View.{state_of, IsApart}
use theokit_plugins.Realtime.Connections.{
  Handle, Runtime, connection_key, arrive, take_over, connect, handle_of,
}
use theokit_plugins.Realtime.Connections.Links.{subscribe_room-linked}
use theokit_plugins.Realtime.Connections.Passes.{
  listens, is_member, Passes, AllListeners, AllMembers, subscribe_room-Passes, join_room-Passes,
}

-- The subscription of the handle with the number is one of its room, under the room's object.
abbrev pub IsLinked : Provider → ℕ → Handle → Type 0
IsLinked p n h =
    (get h.room_id p.rooms ≡ some h.address) × (listens n (state_of p h.room_id) ≡ true)

no_room-deaf :
    (p : Provider) (r : String) (n : ℕ) → get r p.rooms ≡ none → listens n (state_of p r) ≡ true → ⊥
no_room-deaf p r n none_there e = let deaf : false ≡ true = rw none_there at e in ground arith

pub IsLinked-Passes :
    (L : ℕ → Type 0) (M : String → String → Type 0) (s t : Provider) (n : ℕ) (h : Handle)
    → Passes L M s t
    → L n
    → IsLinked s n h
    → IsLinked t n h
IsLinked-Passes L M s t n h passes l (here, e) =
    let still = passes.listeners n h.room_id l e in
    elim (passes.stays.stays h.room_id h.address here) [
      | inl there ↦ (there, still)
      | inr gone ↦ absurd (no_room-deaf t h.room_id n gone still)
    ]

-- The handle with the number holds the connection of the key, and its member is in the room.
pub record IsHeld (rt : Runtime) (key : List ℕ) (n : ℕ) : Type 0 where
  pub handle : Handle
  pub given : get n rt.handles ≡ some handle
  pub unreleased : handle.released ≡ false
  pub keyed : connection_key handle.room_id handle.connection_id ≡ key
  pub present : is_member handle.connection_id (state_of rt.provider handle.room_id) ≡ true

pub record IsSound (rt : Runtime) : Type 0 where
  pub apart : IsApart rt.provider
  pub fresh : (n : ℕ) (h : Handle) → get n rt.handles ≡ some h → n < rt.next_handle
  pub linked :
      (n : ℕ) (h : Handle)
      → get n rt.handles ≡ some h
      → h.released ≡ false
      → IsLinked rt.provider n h
  pub held : (key : List ℕ) (n : ℕ) → get key rt.live_connections ≡ some n → IsHeld rt key n

-- A call that changes the provider only, and takes nobody out.
pub Passes-IsSound :
    (rt : Runtime) (p : Provider)
    → IsSound rt
    → Passes AllListeners AllMembers rt.provider p
    → IsSound (record rt { provider = p })
Passes-IsSound rt p v passes = record {
  apart = passes.apart;
  fresh = v.fresh;
  linked = λ n h e u.
      IsLinked-Passes AllListeners AllMembers rt.provider p n h passes tt (v.linked n h e u);
  held = λ key n e.
      let x = v.held key n e in
      record {
        handle = x.handle;
        given = x.given;
        unreleased = x.unreleased;
        keyed = x.keyed;
        present = passes.members x.handle.room_id x.handle.connection_id tt x.present;
      };
}

-- The handle that is given out next.
pub got_new :
    (n m : ℕ) (h k : Handle) (rt : Runtime)
    → get m (set n h rt.handles) ≡ some k
    → ((n ≡ m) × (h ≡ k)) ⊎ ((n ≢ m) × (get m rt.handles ≡ some k))
got_new n m h k rt e = elim (Bool-cases (n == m)) [
  | inl same ↦ inl ((nat_eq.beq_iff n m).0 same, ground (arith, get-set n m h rt.handles))
  | inr other ↦
      inr ((λ eq. ground (arith, nat_eq.beq_iff n m)), ground (arith, get-set n m h rt.handles))
]

pub connect-IsSound :
    (r c : String) (initial : Option Presence) (rt : Runtime)
    → IsSound rt
    → IsSound (connect r c initial rt)
unfolding connect arrive take_over
connect-IsSound r c initial rt v =
    let n = rt.next_handle in
    let (first, heard) = subscribe_room-Passes rt.provider v.apart r n in
    let (a, subscribed) = subscribe_room r n rt.provider in
    let (second, arrived) = join_room-Passes subscribed first.apart r c initial in
    let both = λ (m : ℕ) (h : Handle) (e : IsLinked rt.provider m h).
      IsLinked-Passes AllListeners AllMembers subscribed (join_room r c initial subscribed) m h
        second tt (IsLinked-Passes AllListeners AllMembers rt.provider subscribed m h first tt e) in
    record {
      apart = second.apart;
      fresh = λ m h e. elim (got_new n m (handle_of r c a) h rt e) [
        | inl (same, here) ↦ omega (arith, same)
        | inr (other, there) ↦ omega (arith, v.fresh m h there)
      ];
      linked = λ m h e u. elim (got_new n m (handle_of r c a) h rt e) [
        | inl (same, here) ↦
            subst (λ m. IsLinked (join_room r c initial subscribed) m h) same
              (subst (λ h. IsLinked (join_room r c initial subscribed) n h) here
                (IsLinked-Passes AllListeners AllMembers subscribed
                  (join_room r c initial subscribed) n (handle_of r c a) second tt
                  (subscribe_room-linked r n rt.provider, heard)))
        | inr (other, there) ↦ both m h (v.linked m h there u)
      ];
      held = λ key m e. elim (Bool-cases (connection_key r c == key)) [
        | inl same ↦
            let here : n ≡ m =
              ground (arith, get-set (connection_key r c) key n rt.live_connections) in
            subst (λ m. IsHeld (connect r c initial rt) key m) here
              (record {
                handle = handle_of r c a;
                given = rw (get-set n n (handle_of r c a) rt.handles, beq_self ⦃e = nat_eq⦄ n) refl;
                unreleased = refl;
                keyed = (codes_eq.beq_iff (connection_key r c) key).0 same;
                present = arrived;
              })
        | inr other ↦
            let x =
              v.held key m
                (ground (arith, get-set (connection_key r c) key n rt.live_connections)) in
            let older = v.fresh m x.handle x.given in
            record {
              handle = x.handle;
              given =
                  ground
                    (arith, x.given, get-set n m (handle_of r c a) rt.handles, nat_eq.beq_iff n m);
              unreleased = x.unreleased;
              keyed = x.keyed;
              present =
                  second.members x.handle.room_id x.handle.connection_id tt
                    (first.members x.handle.room_id x.handle.connection_id tt x.present);
            }
      ];
    }
