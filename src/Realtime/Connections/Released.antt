-- ===== src/Realtime/Connections/Released.antt =====
-- Releasing a handle, live, superseded or released before, keeps the live connections.
use theokit_plugins.Common.{
  ℕ, ◌<◌, true, false, Option, none, some, List, ◌≡◌, ◌≢◌, refl, sym, ap, ap₂, ◌∙◌, subst, arith,
  inl, inr, Bool-cases, ◌==◌, string_eq, nat_eq, codes_eq, nat_beq,
}
use theokit_plugins.Common.Assoc.{get, delete, get-set, get-delete}
use theokit_plugins.Realtime.Rooms.{leave_room, unsubscribe}
use theokit_plugins.Realtime.Rooms.View.{IsApart}
use theokit_plugins.Realtime.Connections.{
  Handle, Runtime, connection_key, release, leave_if_live, end_subscription, release_handle,
}
use theokit_plugins.Realtime.Connections.Passes.{
  AllListeners, AllMembers, unsubscribe-Passes, leave_room-Passes,
}
use theokit_plugins.Realtime.Connections.Sound.{IsLinked, IsLinked-Passes, IsHeld, IsSound, got_new}

-- Sound, but for the live connections of the handle `h` with the number `n`, which has just ended
-- its subscription.
record IsEnding (n : ℕ) (h : Handle) (rt : Runtime) : Type 0 where
  apart : IsApart rt.provider
  fresh : (m : ℕ) (k : Handle) → get m rt.handles ≡ some k → m < rt.next_handle
  linked :
      (m : ℕ) (k : Handle)
      → get m rt.handles ≡ some k
      → k.released ≡ false
      → IsLinked rt.provider m k
  held : (key : List ℕ) (m : ℕ) → get key rt.live_connections ≡ some m → m ≢ n → IsHeld rt key m
  own :
      (key : List ℕ)
      → get key rt.live_connections ≡ some n
      → key ≡ connection_key h.room_id h.connection_id

end_subscription-IsEnding :
    (n : ℕ) (h : Handle) (rt : Runtime)
    → get n rt.handles ≡ some h
    → h.released ≡ false
    → IsSound rt
    → IsEnding n h (end_subscription n h rt)
end_subscription-IsEnding n h rt given open_still v =
    let (here, hears) = v.linked n h given open_still in
    let p = unsubscribe h.room_id h.address n rt.provider in
    let passes = unsubscribe-Passes rt.provider v.apart h.room_id h.address n here in
    let done = record h { released = true } in
    record {
      apart = passes.apart;
      fresh = λ m k e. elim (got_new n m done k rt e) [
        | inl (same, is) ↦ subst (λ m. m < rt.next_handle) same (v.fresh n h given)
        | inr (other, there) ↦ v.fresh m k there
      ];
      linked = λ m k e u. elim (got_new n m done k rt e) [
        | inl (same, is) ↦ absurd (ground (arith, ap (λ x. x.released) is))
        | inr (other, there) ↦
            IsLinked-Passes (λ j. j ≢ n) AllMembers rt.provider p m k passes (λ e'. other (sym e'))
              (v.linked m k there u)
      ];
      held = λ key m e other.
          let x = v.held key m e in
          record {
            handle = x.handle;
            given = ground (arith, x.given, get-set n m done rt.handles, nat_eq.beq_iff n m);
            unreleased = x.unreleased;
            keyed = x.keyed;
            present = passes.members x.handle.room_id x.handle.connection_id tt x.present;
          };
      own = λ key e.
          let x = v.held key n e in
          let is : x.handle ≡ h = ground (arith, x.given) in
          sym x.keyed ∙ ap (λ k. connection_key k.room_id k.connection_id) is;
    }

-- If no live connection is the ending handle's, all is sound.
ended-IsSound :
    (n : ℕ) (h : Handle) (rt : Runtime)
    → get (connection_key h.room_id h.connection_id) rt.live_connections ≢ some n
    → IsEnding n h rt
    → IsSound rt
ended-IsSound n h rt none_left v = record {
  apart = v.apart;
  fresh = v.fresh;
  linked = v.linked;
  held = λ key m e. v.held key m e (λ same.
      let mine : get key rt.live_connections ≡ some n = e ∙ ap some same in
      none_left (subst (λ k. get k rt.live_connections ≡ some n) (v.own key mine) mine));
}

left-IsSound :
    (n : ℕ) (h : Handle) (rt : Runtime)
    → IsEnding n h rt
    → IsSound (record rt {
      live_connections = delete (connection_key h.room_id h.connection_id) rt.live_connections;
      provider = leave_room h.room_id h.connection_id rt.provider;
    })
left-IsSound n h rt v =
    let own_key = connection_key h.room_id h.connection_id in
    let p = leave_room h.room_id h.connection_id rt.provider in
    let passes = leave_room-Passes rt.provider v.apart h.room_id h.connection_id in
    record {
      apart = passes.apart;
      fresh = v.fresh;
      linked = λ m k e u.
          IsLinked-Passes AllListeners (λ q d. q ≡ h.room_id → d ≢ h.connection_id) rt.provider p m
            k passes tt (v.linked m k e u);
      held = λ key m e. elim (Bool-cases (own_key == key)) [
        | inl same ↦ absurd (ground (arith, get-delete own_key key rt.live_connections))
        | inr other ↦
            let there : get key rt.live_connections ≡ some m =
              ground (arith, get-delete own_key key rt.live_connections) in
            let differ : key ≢ own_key = λ same. ground (arith, codes_eq.beq_iff own_key key) in
            let x = v.held key m there (λ same. differ (v.own key (there ∙ ap some same))) in
            record {
              handle = x.handle;
              given = x.given;
              unreleased = x.unreleased;
              keyed = x.keyed;
              present =
                  passes.members x.handle.room_id x.handle.connection_id
                    (λ room conn. differ (sym x.keyed ∙ ap₂ connection_key room conn)) x.present;
            }
      ];
    }

leave_if_live-IsSound :
    (n : ℕ) (h : Handle) (o : Option ℕ) (rt : Runtime)
    → get (connection_key h.room_id h.connection_id) rt.live_connections ≡ o
    → IsEnding n h rt
    → IsSound (leave_if_live n h o rt)
leave_if_live-IsSound n h none rt e v = ended-IsSound n h rt (λ k. ground (arith, e)) v
leave_if_live-IsSound n h (some m) rt e v = elim (Bool-cases (nat_beq m n)) [
  | inl live ↦ rw live (left-IsSound n h rt v)
  | inr superseded ↦ rw superseded (ended-IsSound n h rt (λ k. ground (arith, e)) v)
]

release_handle-IsSound :
    (n : ℕ) (o : Option Handle) (rt : Runtime)
    → get n rt.handles ≡ o
    → IsSound rt
    → IsSound (release_handle n o rt)
release_handle-IsSound n none rt e v = v
release_handle-IsSound n (some h) rt e v = elim (Bool-cases h.released) [
  | inl before ↦ rw before v
  | inr open_still ↦ rw open_still (
      leave_if_live-IsSound n h _ (end_subscription n h rt) refl
        (end_subscription-IsEnding n h rt e open_still v))
]

pub release-IsSound : (n : ℕ) (rt : Runtime) → IsSound rt → IsSound (release n rt)
unfolding release
release-IsSound n rt v = release_handle-IsSound n (get n rt.handles) rt refl v
